-- ===== src/Storage/Order/Tests.antt =====
-- The printed counter of sequential names, {next:010}, at concrete numbers.
use zoocooker.Base.{◌≡◌, refl, codes}
use zoocooker.Storage.Order.{padded}

ten_padded : padded 10 ≡ codes "0000000010"
unfolding padded
ten_padded = refl

-- eleven digits are printed in full
wide_padded : padded 12345678901 ≡ codes "12345678901"
unfolding padded
wide_padded = refl
