-- ===== src/Stream/Drain.antt =====
-- One round of the loop over the buffer, and bytes that arrive later.
use deixic_python.Base.{
  ℕ, ◌≤◌, ◌≡◌, refl, false, Option, none, some, List, [], ◌∷◌, ◌++◌, ltb, ◌==◌, length, take, drop,
  String, arith, take-append, drop-append, length-append, Bool-cases, inl, inr,
}
use deixic_python.Value.{Value, Fields, get, as_dict}
use deixic_python.Stream.{
  Step, wait, fail, stop, emit, bytes_after_end, be32, max_frame_bytes, end_rest, end_object,
  end_error, end_fields, end_document, data_message, envelope, framed, step,
}

module _ {M : Type 0} (parse : List ℕ → Option M) (json_loads : List ℕ → Option Value)
    (headers : List (String × String)) where
  -- What a round says of a buffer when more bytes follow it.
  abbrev pub Extend : Step M → List ℕ → Step M → Type 0
  Extend wait more s = Unit
  Extend (fail e) more s = s ≡ fail e
  Extend stop more s = s ≡ (elim more [ [] ↦ stop | x ∷ xs ↦ fail bytes_after_end ])
  Extend (emit m rest) more s = s ≡ emit m (rest ++ more)

  longer : (n : ℕ) (xs ys : List ℕ) → n ≤ length xs → ltb (length (xs ++ ys)) n ≡ false
  longer n xs ys h = ground (arith, length-append xs ys)

  end_rest-Extend :
      (rest more : List ℕ)
      → Extend
          (end_rest parse json_loads headers rest)
          more
          (end_rest parse json_loads headers (rest ++ more))
  unfolding end_rest
  end_rest-Extend [] [] = refl
  end_rest-Extend [] (x ∷ more) = refl
  end_rest-Extend (x ∷ rest) more = refl

  end_object-Extend :
      (frame more : List ℕ) (fields : Option Fields)
      → Extend
          (end_object parse json_loads headers frame fields)
          more
          (end_object parse json_loads headers frame fields)
  unfolding end_object
  end_object-Extend frame more none = refl
  end_object-Extend frame more (some fields) = refl

  end_error-Extend :
      (frame rest more : List ℕ) (error : Option Value)
      → Extend
          (end_error parse json_loads headers frame rest error)
          more
          (end_error parse json_loads headers frame (rest ++ more) error)
  unfolding end_error
  end_error-Extend frame rest more none = end_rest-Extend rest more
  end_error-Extend frame rest more (some error) =
      end_object-Extend frame more (as_dict (some error))

  end_fields-Extend :
      (frame rest more : List ℕ) (document : Option Fields)
      → Extend
          (end_fields parse json_loads headers frame rest document)
          more
          (end_fields parse json_loads headers frame (rest ++ more) document)
  unfolding end_fields
  end_fields-Extend frame rest more none = refl
  end_fields-Extend frame rest more (some document) =
      end_error-Extend frame rest more (get "error" document)

  end_document-Extend :
      (frame rest more : List ℕ) (document : Option Value)
      → Extend
          (end_document parse json_loads headers frame rest document)
          more
          (end_document parse json_loads headers frame (rest ++ more) document)
  unfolding end_document
  end_document-Extend frame rest more none = refl
  end_document-Extend frame rest more (some document) =
      end_fields-Extend frame rest more (as_dict (some document))

  data_message-Extend :
      (rest more : List ℕ) (message : Option M)
      → Extend
          (data_message parse json_loads headers rest message)
          more
          (data_message parse json_loads headers (rest ++ more) message)
  unfolding data_message
  data_message-Extend rest more none = refl
  data_message-Extend rest more (some message) = refl

  envelope-Extend :
      (flags : ℕ) (frame rest more : List ℕ)
      → Extend
          (envelope parse json_loads headers flags frame rest)
          more
          (envelope parse json_loads headers flags frame (rest ++ more))
  unfolding envelope
  envelope-Extend flags frame rest more = elim (Bool-cases (flags == 2)) [
    | inl e ↦ rw e (end_document-Extend frame rest more (json_loads frame))
    | inr e ↦ elim (Bool-cases (flags == 0)) [
      | inl z ↦ rw (e, z) (data_message-Extend rest more (parse frame))
      | inr z ↦ rw (e, z) refl
    ]
  ]

  framed-Extend :
      (flags size : ℕ) (body more : List ℕ)
      → Extend
          (framed parse json_loads headers flags size body)
          more
          (framed parse json_loads headers flags size (body ++ more))
  unfolding framed
  framed-Extend flags size body more = elim (Bool-cases (ltb max_frame_bytes size)) [
    | inl e ↦ rw e refl
    | inr e ↦ elim (Bool-cases (ltb (length body) size)) [
      | inl short ↦ rw (e, short) tt
      | inr whole ↦
          let full : size ≤ length body = ground arith in
          rw
            (
              e,
              whole,
              longer size body more full,
              take-append size body more full,
              drop-append size body more full,
            )
            (envelope-Extend flags (take size body) (drop size body) more)
    ]
  ]

  pub step-Extend :
      (buffer more : List ℕ)
      → Extend
          (step parse json_loads headers buffer)
          more
          (step parse json_loads headers (buffer ++ more))
  unfolding step
  step-Extend (flags ∷ a ∷ b ∷ c ∷ d ∷ body) more = framed-Extend flags (be32 a b c d) body more
  step-Extend _ more = tt
