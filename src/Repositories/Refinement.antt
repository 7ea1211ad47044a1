-- ===== src/Repositories/Refinement.antt =====
-- `BaseRepository` as a map from identifiers to rows: its methods refine the operations of such a map.
use civio.Base.{
  ℕ, ◌≡◌, ◌⊎◌, inl, inr, refl, ap, ◌∙◌, Option, none, some, List, [], ◌∷◌, String, ◌<>◌, All, ◌==◌,
  ==_iff, ==_refl, if◌then◌else◌, Option-cases, Bool-cases,
}
use civio.Errors.Classes.{Exn, text, other, raised_with, not_found_error}
use civio.Errors.Outcome.{Outcome, ok, err}
use civio.Platform.Orm.{Orm, IsLawful}
use civio.Repositories.BaseRepo.{create, set_all, set_on, update, delete}

module _ {Row : Type 0} (O : Orm Row) (key : Row → ℕ) (L : IsLawful O key) (model_name : String)
    (show : ℕ → String) where
  -- A call of a method that writes.
  pub data Command : Type 0 where
    creating : Row → Command
    updating : ℕ → (fs : List (Row → Row)) → All (λ f. (r : Row) → key (f r) ≡ key r) fs → Command
    deleting : ℕ → Command

  pub data Reply : Type 0 where
    row : Row → Reply
    nothing : Reply

  abbrev as_reply : {A : Type 0} → (A → Reply) → Outcome A × O.State → Outcome Reply × O.State
  as_reply f (ok a, s) = (ok (f a), s)
  as_reply f (err e, s) = (err e, s)

  abbrev pub run : Command → O.State → Outcome Reply × O.State
  run (creating r) s = as_reply row (create O model_name show r s)
  run (updating id fs keeps) s = as_reply row (update O model_name show id fs s)
  run (deleting id) s = as_reply (λ done. nothing) (delete O model_name show id s)

  abbrev pub Rows : Type 0
  Rows = ℕ → Option Row

  -- The operations of a map: an insertion under an identifier that is free, a change of the row that
  -- is there, a removal of the row if there is one.
  abbrev pub Meets : Command → Rows → Reply → Rows → Type 0
  Meets (creating r) m (row r') m' =
      L.Completes r r'
      × (m (key r') ≡ none)
      × ((j : ℕ) → m' j ≡ (if j == key r' then some r' else m j))
  Meets (updating id fs keeps) m (row r') m' =
      (r : Row) × (m id ≡ some r)
      × (r' ≡ set_on fs r)
      × ((j : ℕ) → m' j ≡ (if j == id then some r' else m j))
  Meets (deleting id) m nothing m' = (j : ℕ) → m' j ≡ (if j == id then none else m j)
  Meets _ m _ m' = ⊥

  -- The rows that a session shows.
  abbrev pub rows_of : O.State → Rows
  rows_of s j = O.get s j

  -- What is raised: `NotFoundError` for an update of a row that is not there, which changes nothing; else
  -- what the database refuses.
  abbrev Refused : Exn → Type 0
  Refused e = (name : String) × (e ≡ other name)

  abbrev pub Fails : Command → O.State → Exn → O.State → Type 0
  Fails (updating id fs keeps) s e s' =
      ((O.get s id ≡ none)
        × (e
            ≡ raised_with not_found_error (model_name <> " not found")
                (("id", text (show id)) ∷ []))
        × (s' ≡ s))
      ⊎ ((r : Row) × (O.get s id ≡ some r) × Refused e)
  Fails _ s e s' = Refused e

  abbrev pub Done : Command → O.State → Outcome Reply × O.State → Type 0
  Done c s (ok reply, s') = Meets c (rows_of s) reply (rows_of s') × L.IsClean s'
  Done c s (err e, s') = Fails c s e s'

  create-Done :
      (r : Row) (s : O.State) (o : Outcome O.State)
      → L.IsClean s
      → O.flush (O.add s r).0 ≡ o
      → Done (creating r) s (run (creating r) s)
  unfolding create
  create-Done r s (err e) clean f = rw f (L.flush-other _ f)
  create-Done r s (ok s₁) clean f = rw f (L.added s r clean f, L.flush-IsClean _ f)

  -- Assignments to one row, before the flush.
  set_all-IsAssigned :
      (id : ℕ) (fs : List (Row → Row)) (s : O.State)
      → All (λ f. (r : Row) → key (f r) ≡ key r) fs
      → L.IsAssigned s
      → L.IsAssigned (set_all O model_name show id fs s)
  set_all-IsAssigned id [] s keeps a = a
  set_all-IsAssigned id (f ∷ fs) s (keep, keeps) a =
      set_all-IsAssigned id fs (O.assign s id f) keeps (L.assign-IsAssigned s id f keep a)

  get-set_all :
      (id j : ℕ) (fs : List (Row → Row)) (s : O.State) (r : Row)
      → O.get s id ≡ some r
      → O.get (set_all O model_name show id fs s) j
        ≡ (if j == id then some (set_on fs r) else O.get s j)
  get-set_all id j [] s r h = elim (Bool-cases (j == id)) [
    | inl same ↦ rw same (ap (O.get s) ((==_iff j id).0 same) ∙ h)
    | inr apart ↦ rw apart refl
  ]
  get-set_all id j (f ∷ fs) s r h =
      let first : O.get (O.assign s id f) id ≡ some (f r) =
        L.get-assign s id id f ∙ rw (==_refl id, h) in
      let rest = get-set_all id j fs (O.assign s id f) (f r) first in
      elim (Bool-cases (j == id)) [
        | inl same ↦ rest ∙ rw same refl
        | inr apart ↦ rest ∙ rw (apart, L.get-assign s id j f, apart) refl
      ]

  update-Done :
      (id : ℕ) (fs : List (Row → Row)) (keeps : All (λ f. (r : Row) → key (f r) ≡ key r) fs)
      (s : O.State) (r : Row) (o : Outcome O.State)
      → L.IsClean s
      → O.get s id ≡ some r
      → O.flush (set_all O model_name show id fs s) ≡ o
      → Done (updating id fs keeps) s (run (updating id fs keeps) s)
  unfolding update
  update-Done id fs keeps s r (err e) clean h f = rw (h, f) (inr (r, h, L.flush-other _ f))
  update-Done id fs keeps s r (ok s₁) clean h f =
      rw (h, f)
        (
          (
            r,
            h,
            refl,
            λ j.
                L.get-flush _ j (set_all-IsAssigned id fs s keeps (L.clean-IsAssigned s clean)) f
                ∙ get-set_all id j fs s r h,
          ),
          L.flush-IsClean _ f,
        )

  delete-Done :
      (id : ℕ) (s : O.State) (r : Row) (o : Outcome O.State)
      → L.IsClean s
      → O.get s id ≡ some r
      → O.flush (O.remove s id) ≡ o
      → Done (deleting id) s (run (deleting id) s)
  unfolding delete
  delete-Done id s r (err e) clean h f = rw (h, f) (L.flush-other _ f)
  delete-Done id s r (ok s₁) clean h f =
      rw (h, f) ((λ j. L.removed s id j clean f), L.flush-IsClean _ f)

  -- On a session with nothing to flush, each method that writes does to the rows that the session
  -- shows what the map operation does and leaves nothing to flush, or it raises: `NotFoundError`
  -- exactly for an update of a row that is not there, which changes nothing, and otherwise what the
  -- database refuses.
  pub run-Done : (c : Command) (s : O.State) → L.IsClean s → Done c s (run c s)
  unfolding update delete
  run-Done (creating r) s clean = create-Done r s _ clean refl
  run-Done (updating id fs keeps) s clean = elim (Option-cases (O.get s id)) [
    | inl absent ↦ rw absent (inl (absent, refl, refl))
    | inr (r, found) ↦ update-Done id fs keeps s r _ clean found refl
  ]
  run-Done (deleting id) s clean = elim (Option-cases (O.get s id)) [
    | inl absent ↦ rw absent (
      (λ j. elim (Bool-cases (j == id)) [
        | inl same ↦ rw same (ap (O.get s) ((==_iff j id).0 same) ∙ absent)
        | inr apart ↦ rw apart refl
      ]),
      clean,
    )
    | inr (r, found) ↦ delete-Done id s r _ clean found refl
  ]
