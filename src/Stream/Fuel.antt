-- ===== src/Stream/Fuel.antt =====
-- The loop over the buffer: its fuel is enough, and it may stop and go on with more bytes.
use deixic_python.Base.{
  ℕ, zero, suc, ◌≤◌, ◌≡◌, refl, ap, Option, none, some, List, [], ◌∷◌, ◌++◌, ltb, ◌==◌, length,
  take, drop, String, arith, length-append, length-drop, Bool-cases, inl, inr,
}
use deixic_python.Value.{Value, Fields, get, as_dict}
use deixic_python.Stream.{
  Step, wait, fail, stop, emit, Status, pending, be32, max_frame_bytes, end_rest, end_object,
  end_error, end_fields, end_document, data_message, envelope, framed, step, yield, follow,
  drain_loop, drain, feed,
}
use deixic_python.Stream.Drain.{Extend, step-Extend}

module _ {M : Type 0} (parse : List ℕ → Option M) (json_loads : List ℕ → Option Value)
    (headers : List (String × String)) where
  -- A round that goes on leaves at most `n` bytes.
  abbrev Leaves : ℕ → Step M → Type 0
  Leaves n wait = Unit
  Leaves n (fail e) = Unit
  Leaves n stop = Unit
  Leaves n (emit m rest) = length rest ≤ n

  end_rest-Leaves : (n : ℕ) (rest : List ℕ) → Leaves n (end_rest parse json_loads headers rest)
  unfolding end_rest
  end_rest-Leaves n [] = tt
  end_rest-Leaves n (x ∷ rest) = tt

  end_object-Leaves :
      (n : ℕ) (frame : List ℕ) (fields : Option Fields)
      → Leaves n (end_object parse json_loads headers frame fields)
  unfolding end_object
  end_object-Leaves n frame none = tt
  end_object-Leaves n frame (some fields) = tt

  end_error-Leaves :
      (n : ℕ) (frame rest : List ℕ) (error : Option Value)
      → Leaves n (end_error parse json_loads headers frame rest error)
  unfolding end_error
  end_error-Leaves n frame rest none = end_rest-Leaves n rest
  end_error-Leaves n frame rest (some error) = end_object-Leaves n frame (as_dict (some error))

  end_fields-Leaves :
      (n : ℕ) (frame rest : List ℕ) (document : Option Fields)
      → Leaves n (end_fields parse json_loads headers frame rest document)
  unfolding end_fields
  end_fields-Leaves n frame rest none = tt
  end_fields-Leaves n frame rest (some document) =
      end_error-Leaves n frame rest (get "error" document)

  end_document-Leaves :
      (n : ℕ) (frame rest : List ℕ) (document : Option Value)
      → Leaves n (end_document parse json_loads headers frame rest document)
  unfolding end_document
  end_document-Leaves n frame rest none = tt
  end_document-Leaves n frame rest (some document) =
      end_fields-Leaves n frame rest (as_dict (some document))

  data_message-Leaves :
      (n : ℕ) (rest : List ℕ) (message : Option M)
      → length rest ≤ n
      → Leaves n (data_message parse json_loads headers rest message)
  unfolding data_message
  data_message-Leaves n rest none h = tt
  data_message-Leaves n rest (some message) h = h

  envelope-Leaves :
      (n flags : ℕ) (frame rest : List ℕ)
      → length rest ≤ n
      → Leaves n (envelope parse json_loads headers flags frame rest)
  unfolding envelope
  envelope-Leaves n flags frame rest h = elim (Bool-cases (flags == 2)) [
    | inl e ↦ rw e (end_document-Leaves n frame rest (json_loads frame))
    | inr e ↦ elim (Bool-cases (flags == 0)) [
      | inl z ↦ rw (e, z) (data_message-Leaves n rest (parse frame) h)
      | inr z ↦ rw (e, z) tt
    ]
  ]

  framed-Leaves :
      (n flags size : ℕ) (body : List ℕ)
      → length body ≤ n
      → Leaves n (framed parse json_loads headers flags size body)
  unfolding framed
  framed-Leaves n flags size body h = elim (Bool-cases (ltb max_frame_bytes size)) [
    | inl e ↦ rw e tt
    | inr e ↦ elim (Bool-cases (ltb (length body) size)) [
      | inl short ↦ rw (e, short) tt
      | inr whole ↦
          rw (e, whole)
            (envelope-Leaves n flags (take size body) (drop size body)
              (omega (arith, length-drop size body)))
    ]
  ]

  step-Leaves :
      (x : ℕ) (buffer : List ℕ)
      → Leaves (length buffer) (step parse json_loads headers (x ∷ buffer))
  unfolding step
  step-Leaves flags (a ∷ b ∷ c ∷ d ∷ body) = framed-Leaves _ flags (be32 a b c d) body (omega arith)
  step-Leaves _ _ = tt

  follow-ap :
      (k l : List ℕ → List M × Status) (buffer : List ℕ) (n : ℕ) (s : Step M)
      → Leaves n s
      → ((rest : List ℕ) → length rest ≤ n → k rest ≡ l rest)
      → follow parse json_loads headers k buffer s ≡ follow parse json_loads headers l buffer s
  follow-ap k l buffer n wait small same = refl
  follow-ap k l buffer n (fail e) small same = refl
  follow-ap k l buffer n stop small same = refl
  follow-ap k l buffer n (emit m rest) small same =
      ap (yield parse json_loads headers m) (same rest small)

  -- All fuel from the buffer's length on gives the same.
  pub drain_loop-enough :
      (f g : ℕ) (buffer : List ℕ)
      → length buffer ≤ f
      → length buffer ≤ g
      → drain_loop parse json_loads headers f buffer ≡ drain_loop parse json_loads headers g buffer
  unfolding drain_loop
  drain_loop-enough zero zero buffer p q = refl
  drain_loop-enough zero (suc g) [] p q = refl
  drain_loop-enough zero (suc g) (x ∷ buffer) p q = absurd (omega arith)
  drain_loop-enough (suc f) zero [] p q = refl
  drain_loop-enough (suc f) zero (x ∷ buffer) p q = absurd (omega arith)
  drain_loop-enough (suc f) (suc g) [] p q = refl
  drain_loop-enough (suc f) (suc g) (x ∷ buffer) p q =
      follow-ap (drain_loop parse json_loads headers f) (drain_loop parse json_loads headers g)
        (x ∷ buffer) (length buffer) (step parse json_loads headers (x ∷ buffer))
        (step-Leaves x buffer) (λ rest h. drain_loop-enough f g rest (omega arith) (omega arith))

  -- What a loop that has stopped makes of a chunk.
  abbrev pub resume : List M × Status → List ℕ → List M × Status
  resume (ms, s) chunk = let (ns, t) = feed parse json_loads headers s chunk in (ms ++ ns, t)

  -- One round of the loop when a chunk follows the buffer, by what the round says of the buffer.
  follow-resume :
      (f g : ℕ) (buffer : List ℕ) (x : ℕ) (more : List ℕ) (n : ℕ) (s t : Step M)
      → Leaves n s
      → Extend parse json_loads headers s (x ∷ more) t
      → follow parse json_loads headers
          (drain_loop parse json_loads headers g)
          (buffer ++ x ∷ more)
          t
        ≡ drain parse json_loads headers (buffer ++ x ∷ more)
      → ((rest : List ℕ)
          → length rest ≤ n
          → drain_loop parse json_loads headers g (rest ++ x ∷ more)
            ≡ resume (drain_loop parse json_loads headers f rest) (x ∷ more))
      → follow parse json_loads headers
          (drain_loop parse json_loads headers g)
          (buffer ++ x ∷ more)
          t
        ≡ resume
            (follow parse json_loads headers (drain_loop parse json_loads headers f) buffer s)
            (x ∷ more)
  unfolding feed drain
  follow-resume f g buffer x more n wait t small ext waits ih = waits
  follow-resume f g buffer x more n (fail e) t small ext waits ih = rw ext refl
  follow-resume f g buffer x more n stop t small ext waits ih = rw ext refl
  follow-resume f g buffer x more n (emit m rest) t small ext waits ih =
      rw ext (ap (yield parse json_loads headers m) (ih rest small))

  drain_loop-nil : (f : ℕ) → drain_loop parse json_loads headers f [] ≡ ([], pending [])
  unfolding drain_loop
  drain_loop-nil zero = refl
  drain_loop-nil (suc f) = refl

  drain_loop-resume :
      (f g : ℕ) (buffer : List ℕ) (x : ℕ) (more : List ℕ)
      → length buffer ≤ f
      → length (buffer ++ x ∷ more) ≤ g
      → drain_loop parse json_loads headers g (buffer ++ x ∷ more)
        ≡ resume (drain_loop parse json_loads headers f buffer) (x ∷ more)
  unfolding drain_loop feed drain
  drain_loop-resume f g [] x more p q =
      rw (drain_loop-nil f) (drain_loop-enough g (suc (length more)) (x ∷ more) q (omega arith))
  drain_loop-resume zero g (y ∷ buffer) x more p q = absurd (omega arith)
  drain_loop-resume (suc f) zero (y ∷ buffer) x more p q = absurd (omega arith)
  drain_loop-resume (suc f) (suc g) (y ∷ buffer) x more p q =
      follow-resume f g (y ∷ buffer) x more (length buffer)
        (step parse json_loads headers (y ∷ buffer))
        (step parse json_loads headers (y ∷ buffer ++ x ∷ more)) (step-Leaves y buffer)
        (step-Extend parse json_loads headers (y ∷ buffer) (x ∷ more))
        (drain_loop-enough (suc g) (suc (length (buffer ++ x ∷ more))) (y ∷ buffer ++ x ∷ more) q
          (omega arith))
        (λ rest h.
          drain_loop-resume f g rest x more (omega arith)
            (omega (arith, length-append rest (x ∷ more), length-append buffer (x ∷ more))))

  -- Draining a buffer with a chunk behind it is draining the buffer, and then what is left of it with
  -- the chunk behind that.
  pub drain-resume :
      (buffer : List ℕ) (x : ℕ) (more : List ℕ)
      → drain parse json_loads headers (buffer ++ x ∷ more)
        ≡ resume (drain parse json_loads headers buffer) (x ∷ more)
  unfolding drain
  drain-resume buffer x more =
      drain_loop-resume (length buffer) (length (buffer ++ x ∷ more)) buffer x more (omega arith)
        (omega arith)
