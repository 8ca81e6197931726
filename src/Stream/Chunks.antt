-- ===== src/Stream/Chunks.antt =====
-- How the transport cuts the body into chunks does not show in the stream.
use deixic_python.Base.{
  ℕ, ◌≡◌, refl, ap, ◌∙◌, sym, String, Option, List, [], ◌∷◌, ◌++◌, append-nil, append_assoc,
}
use deixic_python.Value.{Value}
use deixic_python.Stream.{
  Status, pending, ended, failed, Ending, Run, drain, feed, loop, after, finish, decode,
}
use deixic_python.Stream.Fuel.{resume, drain-resume}

-- All the bytes of some chunks.
abbrev pub joined : List (List ℕ) → List ℕ
joined [] = []
joined (chunk ∷ chunks) = chunk ++ joined chunks

module _ {M : Type 0} (parse : List ℕ → Option M) (json_loads : List ℕ → Option Value)
    (headers : List (String × String)) where
  feed-append :
      (s : Status) (xs ys : List ℕ)
      → feed parse json_loads headers s (xs ++ ys)
        ≡ resume parse json_loads headers (feed parse json_loads headers s xs) ys
  unfolding feed
  feed-append (pending buffer) [] ys = refl
  feed-append ended [] ys = refl
  feed-append (failed e) [] ys = refl
  feed-append (pending buffer) (x ∷ xs) [] = rw (append-nil xs, append-nil)
  feed-append (pending buffer) (x ∷ xs) (y ∷ ys) =
      ap (drain parse json_loads headers) (sym (append_assoc buffer (x ∷ xs) (y ∷ ys)))
      ∙ drain-resume parse json_loads headers (buffer ++ x ∷ xs) y ys
  feed-append ended (x ∷ xs) [] = refl
  feed-append ended (x ∷ xs) (y ∷ ys) = refl
  feed-append (failed e) (x ∷ xs) [] = refl
  feed-append (failed e) (x ∷ xs) (y ∷ ys) = refl

  feed-nil : (s : Status) → feed parse json_loads headers s [] ≡ ([], s)
  unfolding feed
  feed-nil (pending buffer) = refl
  feed-nil ended = refl
  feed-nil (failed e) = refl

  after-append :
      (ms ns : List M) (r : Run M)
      → after parse json_loads headers ms (after parse json_loads headers ns r)
        ≡ after parse json_loads headers (ms ++ ns) r
  after-append ms ns r =
      ap (λ (l : List M). let q : Run M = record r { messages = l } in q)
        (sym (append_assoc ms ns r.messages))

  loop-joined :
      (chunks : List (List ℕ)) (ending : Ending) (s : Status)
      → loop parse json_loads headers chunks ending s
        ≡ loop parse json_loads headers (joined chunks ∷ []) ending s
  unfolding loop
  loop-joined [] ending s = rw (feed-nil s)
  loop-joined (chunk ∷ chunks) ending s =
      let (ms, t) = feed parse json_loads headers s chunk in
      rw (loop-joined chunks ending t, feed-append s chunk (joined chunks))
        (after-append ms (feed parse json_loads headers t (joined chunks)).0 (record {
          messages = [];
          outcome =
              finish parse json_loads headers ending
                (feed parse json_loads headers t (joined chunks)).1;
        }))

  -- Two ways to cut the same bytes into chunks, which end alike, yield the same messages and the same
  -- outcome.
  pub decode-joined :
      (chunks pieces : List (List ℕ)) (ending : Ending)
      → joined chunks ≡ joined pieces
      → decode parse json_loads headers chunks ending
        ≡ decode parse json_loads headers pieces ending
  unfolding decode
  decode-joined chunks pieces ending h =
      loop-joined chunks ending (pending []) ∙ rw h (sym (loop-joined pieces ending (pending [])))
