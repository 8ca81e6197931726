-- ===== src/Tasks/Voice/RoundTrip.antt =====
-- Normalised voice selections, and their entry in a checkpoint.
use deixic_python.Base.{
  String, Bool, true, false, ◌≡◌, refl, some, List, [], ◌∷◌, arith, text_dec, ok, all, any, ltb,
  length, subst,
}
use deixic_python.Base.Int.{ℤ, pos, leb_ℤ}
use deixic_python.Value.{get}
use deixic_python.Tasks.Voice.{
  VoiceSelection, text_items, int_items, texts_of, ints_of, voice_entry, voice_fields, has_keys,
  voice_from_checkpoint, voice_checkpoint, normalize_voice_selection, is_bad_selection,
  sorted_tones, is_bad_tone, is_int32, pick,
}

texts_of-text_items : (ss : List String) → texts_of (text_items ss) ≡ some ss
unfolding texts_of text_items
texts_of-text_items [] = refl
texts_of-text_items (s ∷ ss) = rw (texts_of-text_items ss)

ints_of-int_items : (ns : List ℤ) → ints_of (int_items ns) ≡ some ns
unfolding ints_of int_items
ints_of-int_items [] = refl
ints_of-int_items (n ∷ ns) = rw (ints_of-int_items ns)

voice_fields-voice_entry : (v : VoiceSelection) → voice_fields (voice_entry v) ≡ some v
unfolding voice_fields voice_entry has_keys get any all text_dec
voice_fields-voice_entry v =
    rw (texts_of-text_items v.voice_ids, ints_of-int_items v.tone_adjustments)

tones-int32 : (ts : List ℤ) → any is_bad_tone ts ≡ false → all is_int32 ts ≡ true
unfolding any all
tones-int32 [] h = refl
tones-int32 (t ∷ ts) h = ground (arith, tones-int32 ts)

-- A selection that normalisation leaves alone.
pub record IsNormal (v : VoiceSelection) : Type 0 where
  pub good : is_bad_selection v ≡ false
  pub sorted : sorted_tones v.tone_adjustments ≡ v.tone_adjustments

pub voice_checkpoint-ok : (v : VoiceSelection) → IsNormal v → voice_checkpoint v ≡ ok v
unfolding voice_checkpoint normalize_voice_selection
voice_checkpoint-ok v n = rw (n.good, n.sorted)

record Parts (v : VoiceSelection) : Type 0 where
  mode_low : leb_ℤ (pos 0) v.mode ≡ true
  mode_high : leb_ℤ v.mode (pos 3) ≡ true
  few_ids : ltb 4 (length v.voice_ids) ≡ false
  few_tones : ltb 3 (length v.tone_adjustments) ≡ false
  good_tones : any is_bad_tone v.tone_adjustments ≡ false

good-Parts : (v : VoiceSelection) → is_bad_selection v ≡ false → Parts v
unfolding is_bad_selection
good-Parts v h = ground arith

mode-int32 : (n : ℤ) → leb_ℤ (pos 0) n ≡ true → leb_ℤ n (pos 3) ≡ true → is_int32 n ≡ true
mode-int32 n low high = ground arith

pub voice_from_checkpoint-ok :
    (v : VoiceSelection) → IsNormal v → voice_from_checkpoint (voice_entry v) ≡ ok v
unfolding voice_from_checkpoint normalize_voice_selection
voice_from_checkpoint-ok v n =
    let p = good-Parts v n.good in
    rw (
      voice_fields-voice_entry v,
      voice_from_checkpoint,
      p.few_ids,
      p.few_tones,
      mode-int32 v.mode p.mode_low p.mode_high,
      tones-int32 v.tone_adjustments p.good_tones,
      n.good,
      n.sorted,
    )

sorted_tones-pick : (a b c : Bool) → sorted_tones (pick a b c) ≡ pick a b c
unfolding sorted_tones any
sorted_tones-pick true true true = refl
sorted_tones-pick true true false = refl
sorted_tones-pick true false true = refl
sorted_tones-pick true false false = refl
sorted_tones-pick false true true = refl
sorted_tones-pick false true false = refl
sorted_tones-pick false false true = refl
sorted_tones-pick false false false = refl

good-pick :
    (a b c : Bool) → (any is_bad_tone (pick a b c) ≡ false) × (ltb 3 (length (pick a b c)) ≡ false)
unfolding any
good-pick true true true = (refl, refl)
good-pick true true false = (refl, refl)
good-pick true false true = (refl, refl)
good-pick true false false = (refl, refl)
good-pick false true true = (refl, refl)
good-pick false true false = (refl, refl)
good-pick false false true = (refl, refl)
good-pick false false false = (refl, refl)

sorted_tones-good :
    (ts : List ℤ)
    → (any is_bad_tone (sorted_tones ts) ≡ false) × (ltb 3 (length (sorted_tones ts)) ≡ false)
unfolding sorted_tones
sorted_tones-good ts = good-pick _ _ _

sorted_tones_idem : (ts : List ℤ) → sorted_tones (sorted_tones ts) ≡ sorted_tones ts
sorted_tones_idem ts = unfold sorted_tones in sorted_tones-pick _ _ _

retoned-good :
    (v : VoiceSelection) (ts : List ℤ)
    → any is_bad_tone ts ≡ false
    → ltb 3 (length ts) ≡ false
    → is_bad_selection v ≡ false
    → is_bad_selection (record v { tone_adjustments = ts }) ≡ false
unfolding is_bad_selection
retoned-good v ts good few h = ground arith

sorted_tones-IsNormal :
    (v : VoiceSelection)
    → is_bad_selection v ≡ false
    → IsNormal (record v { tone_adjustments = sorted_tones v.tone_adjustments })
sorted_tones-IsNormal v h =
    let ts = sorted_tones v.tone_adjustments in
    record {
      good =
          retoned-good v ts (sorted_tones-good v.tone_adjustments).0
            (sorted_tones-good v.tone_adjustments).1 h;
      sorted = sorted_tones_idem v.tone_adjustments;
    }

normalize-inv :
    (v w : VoiceSelection)
    → normalize_voice_selection v ≡ ok w
    → (is_bad_selection v ≡ false)
      × (record v { tone_adjustments = sorted_tones v.tone_adjustments } ≡ w)
unfolding normalize_voice_selection
normalize-inv v w h = ground arith

-- What normalisation returns is left alone by it.
pub normalize-IsNormal : (v w : VoiceSelection) → normalize_voice_selection v ≡ ok w → IsNormal w
normalize-IsNormal v w h =
    let (good, same) = normalize-inv v w h in subst IsNormal same (sorted_tones-IsNormal v good)
