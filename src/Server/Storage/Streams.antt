-- ===== src/Server/Storage/Streams.antt =====
-- What an upload leaves on the disk.
use model_courier.Prelude.{
  ℕ, ◌+◌, ◌≤◌, ◌≡◌, ◌≢◌, refl, sym, ap, ◌∙◌, ◌⊎◌, inl, inr, String, true, false, Option, none, some,
  List, [], ◌∷◌, ◌++◌, length, length-append, ltb, eqb, arith, eq_iff, eq_refl, Bool-cases,
  Option-cases, le→ltb_false,
}
use mathlib.Core.List.{append-nil, append_assoc}
use model_courier.Contracts.{ArtifactRef}
use model_courier.Contracts.Models.{validate_artifact}
use model_courier.Server.Exec.{Result, Error, ok, err, invalid, Result-cases}
use model_courier.Server.Storage.{
  UploadHandle, Bytes, Files, Item, chunk, breaks, receive, write_stream, put, unlink, fields_of,
  artifact_of, abandoned, stored,
}

-- The bytes of a stream that does not break off.
abbrev pub content_of : List Item → Option Bytes
content_of [] = some []
content_of (breaks ∷ items) = none
content_of (chunk bytes ∷ items) = elim (content_of items) [
  | none ↦ none
  | some rest ↦ some (bytes ++ rest)
]

-- The loop returns all that the stream yields, or raises: when the stream breaks off, or when more
-- comes than was declared.
receive-ok :
    (declared : ℕ) (written : Bytes) (items : List Item) (content : Bytes)
    → receive declared written items ≡ ok content
    → (rest : Bytes) × (content_of items ≡ some rest) × (content ≡ written ++ rest)
unfolding receive
receive-ok declared written [] content e = ([], refl, rw append-nil (ground arith))
receive-ok declared written (breaks ∷ items) content e = absurd (ground arith)
receive-ok declared written (chunk [] ∷ items) content e =
    let (rest, whole, same) = receive-ok declared written items content e in
    (rest, rw whole refl, same)
receive-ok declared written (chunk (b ∷ bs) ∷ items) content e =
    elim (Bool-cases (ltb declared (length (written ++ b ∷ bs)))) [
      | inl t ↦ absurd (let h = rw t at e in cc)
      | inr t ↦
          let (rest, whole, same) =
            receive-ok declared (written ++ b ∷ bs) items content (rw t at e) in
          (b ∷ (bs ++ rest), rw whole refl, same ∙ append_assoc written (b ∷ bs) rest)
    ]

content_of-chunk :
    (bytes rest : Bytes) (items : List Item)
    → content_of (chunk bytes ∷ items) ≡ some rest
    → (tail : Bytes) × (content_of items ≡ some tail) × (rest ≡ bytes ++ tail)
content_of-chunk bytes rest items e = elim (Option-cases (content_of items)) [
  | inl n ↦ absurd (let h = rw n at e in cc)
  | inr (tail, n) ↦ (tail, n, ground (arith, n))
]

receive_total :
    (declared : ℕ) (written : Bytes) (items : List Item) (rest : Bytes)
    → content_of items ≡ some rest
    → length written + length rest ≤ declared
    → receive declared written items ≡ ok (written ++ rest)
unfolding receive
receive_total declared written [] rest e h =
    let empty : [] ≡ rest = ground arith in rw (← empty) (rw append-nil refl)
receive_total declared written (breaks ∷ items) rest e h = absurd (ground arith)
receive_total declared written (chunk [] ∷ items) rest e h =
    let (tail, whole, same) = content_of-chunk [] rest items e in
    rw same (receive_total declared written items tail whole (rw same at h))
receive_total declared written (chunk (b ∷ bs) ∷ items) rest e h =
    let (tail, whole, same) = content_of-chunk (b ∷ bs) rest items e in
    let size = length-append written (b ∷ bs) in
    let room : length written + length ((b ∷ bs) ++ tail) ≤ declared = rw same at h in
    let split = length-append (b ∷ bs) tail in
    let fits : ltb declared (length (written ++ b ∷ bs)) ≡ false =
      le→ltb_false _ _ (omega (arith, size, split, room)) in
    rw (same, fits)
      (receive_total declared (written ++ b ∷ bs) items tail whole
          (omega (arith, size, split, room))
        ∙ ap ok (append_assoc written (b ∷ bs) tail))

-- Nothing but the two paths of the upload changes.
abbrev pub Elsewhere : UploadHandle → Files → Files → Type 0
Elsewhere handle files after =
    (p : String) → (p ≡ handle.path) ⊎ (p ≡ handle.temporary_path) ⊎ (after p ≡ files p)

module _ (strip : String → String) (hex_digest : Bytes → String) (handle : UploadHandle)
    (items : List Item) (files : Files) where
  -- The whole stream, of the declared size, lies under the path, and the temporary file is gone.
  pub record Placed (content : Bytes) (after : Files) : Type 0 where
    pub whole : content_of items ≡ some content
    pub size : length content ≡ handle.declared_size
    pub at_path : after handle.path ≡ some content
    pub no_temporary : after handle.temporary_path ≡ none
    pub elsewhere : Elsewhere handle files after

  -- Neither file of the upload is there.
  pub record Abandoned (after : Files) : Type 0 where
    pub no_file : after handle.path ≡ none
    pub no_temporary : after handle.temporary_path ≡ none
    pub elsewhere : Elsewhere handle files after

  -- What `os.replace` leaves of the temporary file that was written.
  abbrev placed : Bytes → Files
  placed content =
      put handle.path content
        (unlink handle.temporary_path (put handle.temporary_path content files))

  stored-placed : (content : Bytes) → stored strip hex_digest handle content files ≡ placed content
  stored-placed content = rw (eq_refl handle.temporary_path) refl

  placed-Placed :
      (content : Bytes)
      → handle.path ≢ handle.temporary_path
      → content_of items ≡ some content
      → length content ≡ handle.declared_size
      → Placed content (placed content)
  placed-Placed content ne whole size = record {
    whole = whole;
    size = size;
    at_path = rw (eq_refl handle.path) refl;
    no_temporary =
        ground (arith, eq_iff handle.temporary_path handle.path, eq_refl handle.temporary_path);
    elsewhere = λ p. ground (arith, eq_iff p handle.path, eq_iff p handle.temporary_path);
  }

  abandoned-Abandoned : Abandoned (abandoned strip hex_digest handle files)
  abandoned-Abandoned = record {
    no_file = rw (eq_refl handle.path) refl;
    no_temporary = ground (arith, eq_refl handle.temporary_path);
    elsewhere = λ p. ground (arith, eq_iff p handle.path, eq_iff p handle.temporary_path);
  }

  -- The artifact of a content is valid and returned, or its ValidationError is raised.
  abbrev pub Describes : Bytes → Result ArtifactRef → Type 0
  Describes content o =
      ((ref : ArtifactRef) × (validate_artifact strip (fields_of strip hex_digest handle content)
          ≡ some ref)
        × (o ≡ ok ref))
      ⊎ ((validate_artifact strip (fields_of strip hex_digest handle content) ≡ none)
          × (o ≡ err invalid))

  artifact_of-Describes :
      (content : Bytes) → Describes content (artifact_of strip hex_digest handle content)
  artifact_of-Describes content =
      elim (Option-cases (validate_artifact strip (fields_of strip hex_digest handle content))) [
        | inl n ↦ inr (n, rw (artifact_of, n) refl)
        | inr (ref, n) ↦ inl (ref, n, rw (artifact_of, n) refl)
      ]

  -- The stream is stored and its artifact is described, or an exception leaves no file.
  abbrev pub Settles : Result ArtifactRef × Files → Type 0
  Settles o =
      ((content : Bytes) × Placed content o.1 × Describes content o.0)
      ⊎ ((e : Error) × (o.0 ≡ err e) × Abandoned o.1)

  -- If the final path is not the temporary one, an upload either has stored the whole stream, which
  -- has the declared size, under the final path, with the temporary file gone, and then returns the
  -- validated description of it, or raises if that is not valid; or it raises and leaves neither
  -- file. No other path is touched.
  pub write_stream-Settles :
      handle.path ≢ handle.temporary_path
      → Settles (write_stream strip hex_digest handle items files)
  unfolding write_stream
  write_stream-Settles ne = elim (Result-cases (receive handle.declared_size [] items)) [
    | inr (e, r) ↦ rw r (inr (e, refl, abandoned-Abandoned))
    | inl (content, r) ↦
        let (rest, whole, same) = receive-ok handle.declared_size [] items content r in
        rw r (elim (Bool-cases (eqb (length content) handle.declared_size)) [
          | inr n ↦ rw n (inr (_, refl, abandoned-Abandoned))
          | inl y ↦
              rw (y, stored-placed content)
                (inl (
                  content,
                  placed-Placed content ne (whole ∙ ap some (sym same)) (ground arith),
                  artifact_of-Describes content,
                ))
        ])
  ]

  write_stream-artifact_of :
      (content : Bytes)
      → content_of items ≡ some content
      → length content ≡ handle.declared_size
      → (write_stream strip hex_digest handle items files).0
        ≡ artifact_of strip hex_digest handle content
  unfolding write_stream
  write_stream-artifact_of content whole size =
      let all = receive_total handle.declared_size [] items content whole (omega (arith, size)) in
      let same : eqb (length content) handle.declared_size ≡ true = ground arith in
      rw all (rw same refl)

  -- For a stream that does not break off and has the declared size, the upload returns the
  -- validated description of its content, or raises the error of a description that is not valid,
  -- exactly as the validation decides.
  pub write_stream_total :
      (content : Bytes)
      → content_of items ≡ some content
      → length content ≡ handle.declared_size
      → Describes content (write_stream strip hex_digest handle items files).0
  write_stream_total content whole size =
      rw (write_stream-artifact_of content whole size) (artifact_of-Describes content)
