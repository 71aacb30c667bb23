-- ===== src/UuidText.antt =====
-- `str(uuid)`: 32 hexadecimal digits in groups of 8, 4, 4, 4 and 12.
use flow_speckit.Prelude.{ℕ, zero, suc, ◌+◌, ◌-◌, ◌/◌, ◌%◌, ◌^◌, [], ◌∷◌, ltb, if◌then◌else◌, Text}
use flow_speckit.Base.{Uuid}

abbrev hex_digit : ℕ → ℕ
hex_digit d = if ltb d 10 then b'0' + d else b'a' + (d - 10)

-- The `n` lowest digits before `acc`.
hex_on : ℕ → ℕ → Text → Text
hex_on zero v acc = acc
hex_on (suc n) v acc = hex_on n (v / 16) (hex_digit (v % 16) ∷ acc)

unfoldable pub uuid_text : Uuid → Text
unfolding hex_on
uuid_text u = hex_on 8 (u / 16 ^ 24) (
    b'-'
    ∷ hex_on 4 (u / 16 ^ 20)
        (b'-' ∷ hex_on 4 (u / 16 ^ 16) (b'-' ∷ hex_on 4 (u / 16 ^ 12) (b'-' ∷ hex_on 12 u []))))
