-- ===== src/Server/Base64.antt =====
-- src/server/base64.h: `base64_decode`. The buffer is an `int`: a shift out of its 32 bits wraps. A
-- throw is `none`.
use libmlxforge.Common.{
  ℕ, ◌+◌, ◌-◌, ◌*◌, ◌/◌, ◌%◌, ◌^◌, Bool, ◌&&◌, ◌||◌, [], ◌∷◌, Option, none, some, Bytes, leb, ◌==◌,
  if◌then◌else◌,
}

unfoldable pub sextet : ℕ → Option ℕ
sextet c =
    if leb b'A' c && leb c b'Z'
    then some (c - b'A')
    else if leb b'a' c && leb c b'z'
    then some (c - b'a' + 26)
    else if leb b'0' c && leb c b'9'
    then some (c - b'0' + 52)
    else if c == b'+'
    then some 62
    else if c == b'/'
    then some 63
    else none

abbrev pub is_space : ℕ → Bool
is_space c = c == 10 || c == 13 || c == 32 || c == 9

-- The loop, with the low 32 bits of `buf`. The six new bits of `(buf << 6) | v` are zero before, so
-- they are added; no byte that is put out has a bit above the 14 lowest.
unfoldable pub decode_loop : ℕ → ℕ → Bytes → Option Bytes
unfolding sextet
decode_loop buf bits [] = some []
decode_loop buf bits (c ∷ s) =
    let skipped = decode_loop buf bits s in
    let taken : Option Bytes = elim (sextet c) [
      | none ↦ none
      | some v ↦
          let next = (buf * 64 + v) % 2 ^ 32 in
          let emitted = decode_loop next (bits + 6 - 8) s in
          let kept = decode_loop next (bits + 6) s in
          if leb 8 (bits + 6)
          then elim emitted [
            | none ↦ none
            | some out ↦ some (next / 2 ^ (bits + 6 - 8) % 256 ∷ out)
          ]
          else kept
    ] in
    if c == b'=' then some [] else if is_space c then skipped else taken

unfoldable pub base64_decode : Bytes → Option Bytes
unfolding decode_loop
base64_decode s = decode_loop 0 0 s
