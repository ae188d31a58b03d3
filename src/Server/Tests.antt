-- ===== src/Server/Tests.antt =====
-- Tests of src/server/base64.h.
use libmlxforge.Common.{[], ◌∷◌, none, some, Bytes, ◌≡◌, refl, arith, ◌↔◌}
use libmlxforge.Server.Base64.{base64_decode}
use libmlxforge.Server.Errors.{HasForeign, without_blanks, base64_decode_lem}
use libmlxforge.Server.RoundTrip.{base64_encode, base64_decode-base64_encode}

abbrev many : Bytes
many = b'M' ∷ b'a' ∷ b'n' ∷ b'y' ∷ []

many_text : base64_encode many ≡ b'T' ∷ b'W' ∷ b'F' ∷ b'u' ∷ b'e' ∷ b'Q' ∷ b'=' ∷ b'=' ∷ []
many_text = refl

abbrev spaced : Bytes
spaced = b'T' ∷ b'W' ∷ 10 ∷ b'F' ∷ b'u' ∷ b'!' ∷ []

spaced_throws : base64_decode spaced ≡ none
unfolding base64_decode
spaced_throws = refl

base64_decode-base64_encode_example : base64_decode (base64_encode many) ≡ some many
base64_decode-base64_encode_example =
    base64_decode-base64_encode many (omega arith, (omega arith, (omega arith, (omega arith, tt))))

base64_decode_lem_example :
    ((base64_decode spaced ≡ none) ↔ HasForeign spaced)
    × (base64_decode (without_blanks spaced) ≡ base64_decode spaced)
base64_decode_lem_example = base64_decode_lem spaced
