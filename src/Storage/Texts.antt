-- ===== src/Storage/Texts.antt =====
-- Rust's `==`, `strip_prefix` and `parse::<u32>` on the texts of src/main.rs and src/balancer_storage.rs.
use reth_exex_liquidity.Common.{
  ℕ, ◌+◌, ◌-◌, ◌*◌, ◌^◌, ltb, leb, ◌==◌, ◌&&◌, if◌then◌else◌, Bool, true, false, Option, none, some,
}
use Prim.Native.String.{String}
use Prim.Native.Char.{code}

unfoldable pub same_text : String → String → Bool
same_text String.[] String.[] = true
same_text (String.◌∷◌ c s) (String.◌∷◌ d t) = code c == code d && same_text s t
same_text _ _ = false

-- The digits after a value, up to the largest `u32`.
unfoldable pub parse_digits : ℕ → String → Option ℕ
parse_digits n String.[] = some n
parse_digits n (String.◌∷◌ c s) =
    let next = n * 10 + (code c - 48) in
    let rest = parse_digits next s in
    if leb 48 (code c) && leb (code c) 57 && ltb next (2 ^ 32) then rest else none

-- `parse::<u32>`: one sign `+` at most, and a digit at least.
unfoldable pub parse_u32 : String → Option ℕ
parse_u32 String.[] = none
parse_u32 (String.◌∷◌ c String.[]) = parse_digits 0 (String.◌∷◌ c String.[])
parse_u32 (String.◌∷◌ c (String.◌∷◌ d s)) =
    if code c == 43
    then parse_digits 0 (String.◌∷◌ d s)
    else parse_digits 0 (String.◌∷◌ c (String.◌∷◌ d s))

-- `strip_prefix` with one character.
unfoldable pub strip_prefix : ℕ → String → Option String
strip_prefix p String.[] = none
strip_prefix p (String.◌∷◌ c s) = if code c == p then some s else none
