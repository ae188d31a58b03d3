-- ===== src/Text/Tests.antt =====
-- Tests of src/tokenizer/spm.cpp's decode and of the streaming detokenizer: a text token, a
-- character of three byte tokens, and a special id.
use libmlxforge.Common.{ℕ, ◌+◌, ◌≤◌, [], ◌∷◌, some, Bytes, take, ◌≡◌, refl, arith}
use libmlxforge.Text.Spm.{SpmBpeTokenizer, spm_decode, spm_decode-append}
use libmlxforge.Text.Stream.{
  utf8_complete_len, EncoderBackend, tokenizer_decode, new_detokenizer, add, add_all, finish,
}
use libmlxforge.Text.Streaming.{add_all_lem}
use libmlxforge.Text.Whole.{IsMost, whole_lem}
use libmlxforge.Token.Merge.{flat}

abbrev small : SpmBpeTokenizer
small = record {
  id_to_token =
      (b'<' ∷ b's' ∷ b'>' ∷ [])
      ∷ (0xE2 ∷ 0x96 ∷ 0x81 ∷ b'a' ∷ [])
      ∷ (b'<' ∷ b'0' ∷ b'>' ∷ [])
      ∷ (b'<' ∷ b'1' ∷ b'>' ∷ [])
      ∷ (b'<' ∷ b'2' ∷ b'>' ∷ [])
      ∷ [];
  special_ids = 0 ∷ [];
  byte_token_value = (2, 0xE2) ∷ (3, 0x82) ∷ (4, 0xAC) ∷ [];
}

abbrev backend : EncoderBackend
backend = record { decode = spm_decode small; special_ids = small.special_ids }

abbrev euro : Bytes
euro = 0xE2 ∷ 0x82 ∷ 0xAC ∷ []

spm_decode_small :
    spm_decode small (0 ∷ 1 ∷ 2 ∷ 3 ∷ 4 ∷ 9 ∷ 1 ∷ [])
    ≡ b' ' ∷ b'a' ∷ 0xE2 ∷ 0x82 ∷ 0xAC ∷ b' ' ∷ b'a' ∷ []
unfolding spm_decode
spm_decode_small = refl

-- Half of a character is held back, and returned at the end.
held_back :
    add_all backend new_detokenizer (0 ∷ 1 ∷ 2 ∷ 3 ∷ [])
    ≡ some (b' ' ∷ b'a' ∷ [], record { ids = 0 ∷ 1 ∷ 2 ∷ 3 ∷ []; emitted = 2 })
unfolding add_all spm_decode
held_back = refl

released :
    add backend (record { ids = 0 ∷ 1 ∷ 2 ∷ 3 ∷ []; emitted = 2 }) 4
    ≡ some (euro, record { ids = 0 ∷ 1 ∷ 2 ∷ 3 ∷ 4 ∷ []; emitted = 5 })
unfolding add spm_decode
released = refl

add_all_lem_example :
    (add_all backend new_detokenizer (1 ∷ 2 ∷ 3 ∷ [])
      ≡ some (b' ' ∷ b'a' ∷ [], record { ids = 1 ∷ 2 ∷ 3 ∷ []; emitted = 2 }))
    × (4 ≤ 2 + 3)
    × (finish backend (record { ids = 1 ∷ 2 ∷ 3 ∷ []; emitted = 2 })
        ≡ some (0xE2 ∷ 0x82 ∷ [], record { ids = 1 ∷ 2 ∷ 3 ∷ []; emitted = 4 }))
unfolding tokenizer_decode utf8_complete_len spm_decode
add_all_lem_example = add_all_lem backend (spm_decode-append small) (1 ∷ 2 ∷ 3 ∷ [])

whole_lem_example :
    (k : ℕ) × (take (utf8_complete_len (b'a' ∷ 0xE2 ∷ 0x82 ∷ [])) (b'a' ∷ 0xE2 ∷ 0x82 ∷ [])
      ≡ flat (take k ((b'a' ∷ []) ∷ euro ∷ [])))
    × IsMost k ((b'a' ∷ []) ∷ euro ∷ []) 3
whole_lem_example =
    whole_lem ((b'a' ∷ []) ∷ euro ∷ []) (b'a' ∷ 0xE2 ∷ 0x82 ∷ []) (0xAC ∷ [])
      (
        (omega arith, tt),
        (
          (
            (omega arith, omega arith),
            ((omega arith, omega arith), ((omega arith, omega arith), tt)),
          ),
          tt,
        ),
      )
      refl
