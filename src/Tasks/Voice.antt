-- ===== src/Tasks/Voice.antt =====
-- `normalize_voice_selection` of client.py, and the entry of a checkpoint that keeps a selection.
pub mod RoundTrip
use deixic_python.Base.{
  ℕ, zero, suc, ◌-◌, ◌^◌, String, Bool, true, false, not, ◌||◌, ◌&&◌, Option, none, some, List, [],
  ◌∷◌, ltb, leb, ◌==◌, text_eq, is_empty, strip, if◌then◌else◌, Result, ok, err, all, any, length,
}
use deixic_python.Base.Text.{text_length}
use deixic_python.Base.Int.{ℤ, pos, negsuc, leb_ℤ, ◌==ℤ◌}
use deixic_python.Value.{Value, Items, nil, cons, Fields, end, field, get}
use deixic_python.Errors.{DeixicError, validation_error}

-- `pb.VoiceSelection`; its enums are integers on the wire.
pub record VoiceSelection : Type 0 where
  pub mode : ℤ
  pub voice_ids : List String
  pub tone_adjustments : List ℤ

abbrev pub text_in : String → List String → Bool
text_in s xs = any (text_eq s) xs

-- `len(xs) != len(set(xs))`
unfoldable pub has_duplicate : List String → Bool
unfolding any
has_duplicate [] = false
has_duplicate (x ∷ xs) = text_in x xs || has_duplicate xs

-- `not item or item != item.strip() or len(item) > 128`
unfoldable pub is_bad_id : String → Bool
unfolding strip text_length
is_bad_id item = is_empty item || not (text_eq item (strip item)) || ltb 128 (text_length item)

-- `tone not in (1, 2, 3)`
abbrev pub is_bad_tone : ℤ → Bool
is_bad_tone tone = not (tone ==ℤ pos 1 || tone ==ℤ pos 2 || tone ==ℤ pos 3)

abbrev tone_in : ℤ → List ℤ → Bool
tone_in t ts = any (λ u. t ==ℤ u) ts

abbrev add_if : Bool → ℤ → List ℤ → List ℤ
add_if true t ts = t ∷ ts
add_if false t ts = ts

-- The tones 1, 2 and 3, each where its flag is set.
abbrev pub pick : Bool → Bool → Bool → List ℤ
pick one two three = add_if one (pos 1) (add_if two (pos 2) (add_if three (pos 3) []))

-- `sorted(set(tones))`, of tones that are 1, 2 or 3
unfoldable pub sorted_tones : List ℤ → List ℤ
unfolding any
sorted_tones ts = pick (tone_in (pos 1) ts) (tone_in (pos 2) ts) (tone_in (pos 3) ts)

abbrev no_ids : List String → Bool
no_ids [] = true
no_ids (x ∷ xs) = false

unfoldable pub is_bad_selection : VoiceSelection → Bool
is_bad_selection v =
    not (leb_ℤ (pos 0) v.mode && leb_ℤ v.mode (pos 3))
    || ltb 4 (length v.voice_ids)
    || has_duplicate v.voice_ids
    || any is_bad_id v.voice_ids
    || (if v.mode ==ℤ pos 2 then no_ids v.voice_ids else not (no_ids v.voice_ids))
    || ltb 3 (length v.tone_adjustments)
    || any is_bad_tone v.tone_adjustments

unfoldable pub normalize_voice_selection : VoiceSelection → Result DeixicError VoiceSelection
unfolding validation_error
normalize_voice_selection v =
    if is_bad_selection v
    then err (validation_error "Invalid voice IDs or tone adjustments")
    else ok (record v { tone_adjustments = sorted_tones v.tone_adjustments })

unfoldable pub text_items : List String → Items
text_items [] = nil
text_items (s ∷ ss) = cons (Value.text s) (text_items ss)

unfoldable pub int_items : List ℤ → Items
int_items [] = nil
int_items (n ∷ ns) = cons (Value.int n) (int_items ns)

-- The dict that `_voice_checkpoint` builds of a normalised selection.
unfoldable pub voice_entry : VoiceSelection → Value
voice_entry v = Value.dict (
    field "mode" (Value.int v.mode) (
      field "voiceIds" (Value.list (text_items v.voice_ids))
        (field "toneAdjustments" (Value.list (int_items v.tone_adjustments)) end)))

-- `_voice_checkpoint`, before its dict is written out
unfoldable pub voice_checkpoint : VoiceSelection → Result DeixicError VoiceSelection
voice_checkpoint v = normalize_voice_selection v

-- Items that are all texts, and items that are all integers (a bool is none).
abbrev text_of : Value → Option String
text_of (Value.text s) = some s
text_of _ = none

abbrev int_of : Value → Option ℤ
int_of (Value.int n) = some n
int_of _ = none

abbrev push {ℓ} : {A : Type ℓ} → Option A → Option (List A) → Option (List A)
push (some a) (some rest) = some (a ∷ rest)
push (some a) none = none
push none rest = none

unfoldable pub texts_of : Items → Option (List String)
texts_of nil = some []
texts_of (cons v vs) = push (text_of v) (texts_of vs)

unfoldable pub ints_of : Items → Option (List ℤ)
ints_of nil = some []
ints_of (cons v vs) = push (int_of v) (ints_of vs)

abbrev pub list_of : Option Value → Option Items
list_of (some (Value.list xs)) = some xs
list_of _ = none

abbrev pub then_some {ℓ κ} : {A : Type ℓ} {B : Type κ} → Option A → (A → Option B) → Option B
then_some none f = none
then_some (some a) f = f a

-- Every key of a dict is one of the names, and every name is a key.
unfoldable pub keys_in : List String → Fields → Bool
unfolding any
keys_in names end = true
keys_in names (field key value rest) = text_in key names && keys_in names rest

abbrev is_there : Option Value → Bool
is_there none = false
is_there (some v) = true

-- `set(value) == set(names)`
unfoldable pub has_keys : List String → Fields → Bool
unfolding keys_in
has_keys names fs = keys_in names fs && all (λ name. is_there (get name fs)) names

-- The types that `_voice_from_checkpoint` asks for, and the values that it finds.
unfoldable pub voice_fields : Value → Option VoiceSelection
voice_fields (Value.dict fs) =
    if has_keys ("mode" ∷ "voiceIds" ∷ "toneAdjustments" ∷ []) fs
    then (then_some (then_some (get "mode" fs) int_of) λ mode.
        then_some (then_some (list_of (get "voiceIds" fs)) texts_of) λ ids.
          then_some (then_some (list_of (get "toneAdjustments" fs)) ints_of)
            λ tones. some (record { mode = mode; voice_ids = ids; tone_adjustments = tones }))
    else none
voice_fields _ = none

-- An enum of a message is an int32: the constructor of `pb.VoiceSelection` raises a ValueError at any
-- other integer.
abbrev pub is_int32 : ℤ → Bool
is_int32 (pos n) = ltb n (2 ^ 31)
is_int32 (negsuc n) = ltb n (2 ^ 31)

-- `_voice_from_checkpoint`
unfoldable pub voice_from_checkpoint : Value → Result DeixicError VoiceSelection
unfolding validation_error
voice_from_checkpoint value =
    let invalid : Result DeixicError VoiceSelection =
      err (validation_error "Invalid checkpoint voice selection") in
    elim (voice_fields value) [
      | none ↦ invalid
      | some v ↦
          if ltb 4 (length v.voice_ids)
            || ltb 3 (length v.tone_adjustments)
            || not (is_int32 v.mode)
            || not (all is_int32 v.tone_adjustments)
          then invalid
          else normalize_voice_selection v
    ]
