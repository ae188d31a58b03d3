-- ===== src/Text/Stream.antt =====
-- src/tokenizer/tokenizer.cpp: `utf8_complete_len`, `Tokenizer::decode` and
-- `StreamingDetokenizer`; src/tokenizer/encoder_backend.h: what they use of a backend. Ids that are
-- negative are not modelled. The throw of `substr` is `none`.
use libmlxforge.Common.{
  ℕ, zero, suc, ◌-◌, ◌/◌, Bool, List, [], ◌∷◌, ◌++◌, Option, none, some, Bytes, length, take, drop,
  get_elem?, ltb, leb, ◌==◌, if◌then◌else◌,
}
use libmlxforge.Token.Bpe.{mem}

unfoldable pub byte_at : Bytes → ℕ → ℕ
byte_at s i = elim (get_elem? s i) [ none ↦ 0 | some b ↦ b ]

-- `(b & 0xC0) == 0x80` of a byte.
abbrev pub is_continuation : ℕ → Bool
is_continuation b = b / 64 == 2

-- The loop that goes back from index `start`.
unfoldable pub last_start : Bytes → ℕ → ℕ
unfolding byte_at
last_start s zero = 0
last_start s (suc start) =
    let back = last_start s start in
    if is_continuation (byte_at s (suc start)) then back else suc start

unfoldable pub needed : ℕ → ℕ
needed lead =
    if ltb lead 0x80 then 1 else if ltb lead 0xE0 then 2 else if ltb lead 0xF0 then 3 else 4

-- The end of `utf8_complete_len`, at the start that was found.
unfoldable pub complete_from : Bytes → ℕ → ℕ
unfolding byte_at needed
complete_from s start =
    if leb (needed (byte_at s start)) (length s - start) then length s else start

unfoldable pub utf8_complete_len : Bytes → ℕ
unfolding complete_from last_start
utf8_complete_len [] = 0
utf8_complete_len (c ∷ s) = complete_from (c ∷ s) (last_start (c ∷ s) (length s))

pub record EncoderBackend : Type 0 where
  pub decode : List ℕ → Bytes
  pub special_ids : List ℕ

abbrev pub keep : List ℕ → List ℕ → List ℕ
keep special [] = []
keep special (id ∷ ids) = let rest = keep special ids in if mem id special then rest else id ∷ rest

unfoldable pub tokenizer_decode : EncoderBackend → List ℕ → Bytes
tokenizer_decode b ids = b.decode (keep b.special_ids ids)

pub record StreamingDetokenizer : Type 0 where
  pub ids : List ℕ
  pub emitted : ℕ

abbrev pub new_detokenizer : StreamingDetokenizer
new_detokenizer = record { ids = []; emitted = 0 }

unfoldable pub substr : Bytes → ℕ → ℕ → Option Bytes
substr s pos n = if ltb (length s) pos then none else some (take n (drop pos s))

unfoldable pub add :
    EncoderBackend → StreamingDetokenizer → ℕ → Option (Bytes × StreamingDetokenizer)
unfolding tokenizer_decode utf8_complete_len substr
add b d id =
    let ids = d.ids ++ (id ∷ []) in
    let full = tokenizer_decode b ids in
    let complete = utf8_complete_len full in
    if leb complete d.emitted
    then some ([], record { ids = ids; emitted = d.emitted })
    else elim (substr full d.emitted (complete - d.emitted)) [
      | none ↦ none
      | some out ↦ some (out, record { ids = ids; emitted = complete })
    ]

unfoldable pub finish :
    EncoderBackend → StreamingDetokenizer → Option (Bytes × StreamingDetokenizer)
unfolding tokenizer_decode substr
finish b d =
    let full = tokenizer_decode b d.ids in
    elim (substr full d.emitted (length full)) [
      | none ↦ none
      | some out ↦ some (out, record { ids = d.ids; emitted = length full })
    ]

-- A caller that adds the ids in order: what it gets, put together.
unfoldable pub add_all :
    EncoderBackend → StreamingDetokenizer → List ℕ → Option (Bytes × StreamingDetokenizer)
unfolding add
add_all b d [] = some ([], d)
add_all b d (id ∷ ids) = elim (add b d id) [
  | none ↦ none
  | some (out, d2) ↦ elim (add_all b d2 ids) [
    | none ↦ none
    | some (more, d3) ↦ some (out ++ more, d3)
  ]
]
