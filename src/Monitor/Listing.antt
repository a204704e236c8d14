-- ===== src/Monitor/Listing.antt =====
-- Which processes `_top_processes` lists, and `_procs` behind it.
use keekars_pi_vpn.Base.{
  ℕ, ◌≡◌, refl, ◌∙◌, Bool, false, ◌&&◌, ◌||◌, ◌==◌, ==_iff, none, some, List, [], ◌∷◌, ◌++◌, filter,
  elem, arith, Bool-cases, Option-cases, inl, inr,
}
use keekars_pi_vpn.Base.Text.{elem-append}
use keekars_pi_vpn.Monitor.Stats.{
  ProcessRow, Processes, drop_ended, open_one, open_new, process_rows, top_processes,
}

abbrev pub Distinct : List ℕ → Type 0
Distinct [] = Unit
Distinct (x ∷ xs) = (elem x xs ≡ false) × Distinct xs

-- The rows of the processes that answer, in order
pub data Answers (p : Processes) : List ℕ → List ProcessRow → Type 0 where
  nobody : Answers p [] []
  silent :
      {pids : List ℕ} {rows : List ProcessRow} (pid : ℕ)
      → p.row pid ≡ none
      → Answers p pids rows
      → Answers p (pid ∷ pids) rows
  answers :
      {pids : List ℕ} {rows : List ProcessRow} (pid : ℕ) (r : ProcessRow)
      → p.row pid ≡ some r
      → Answers p pids rows
      → Answers p (pid ∷ pids) (r ∷ rows)

-- `pids` are the running processes that were known before or can be opened, each once, and `rows`
-- what those of them say that answer.
pub record IsListing (p : Processes) (procs pids : List ℕ) (rows : List ProcessRow) : Type 0 where
  pub distinct : Distinct pids
  pub running : (x : ℕ) → elem x pids ≡ (elem x p.pids && (elem x procs || p.opens x))
  pub answering : Answers p pids rows

elem-filter : (q : ℕ → Bool) (x : ℕ) (xs : List ℕ) → elem x (filter q xs) ≡ (elem x xs && q x)
unfolding elem filter
elem-filter q x [] = refl
elem-filter q x (y ∷ ys) = elim (Bool-cases (x == y)) [
  | inl e ↦
      let same : x ≡ y = (==_iff x y).0 e in
      rw (← same) (ground (arith, elem-filter q x ys, (==_iff x x).1 refl))
  | inr e ↦ ground (arith, elem-filter q x ys, e)
]

Distinct-filter : (q : ℕ → Bool) (xs : List ℕ) → Distinct xs → Distinct (filter q xs)
unfolding filter
Distinct-filter q [] h = tt
Distinct-filter q (x ∷ xs) h = elim (Bool-cases (q x)) [
  | inl e ↦ rw e (rw (elem-filter q x xs, h.0) refl, Distinct-filter q xs h.1)
  | inr e ↦ rw e (Distinct-filter q xs h.1)
]

elem-other : (x y : ℕ) → (x == y) ≡ false → elem y (x ∷ []) ≡ false
unfolding elem
elem-other x y e = ground (arith, e)

Distinct-append : (xs : List ℕ) (y : ℕ) → Distinct xs → elem y xs ≡ false → Distinct (xs ++ y ∷ [])
unfolding elem
Distinct-append [] y h k = (refl, tt)
Distinct-append (x ∷ xs) y h k =
    (rw (elem-append x xs (y ∷ []), h.0) (ground arith), Distinct-append xs y h.1 (ground arith))

module _ (p : Processes) where
  Distinct-open_one : (pid : ℕ) (procs : List ℕ) → Distinct procs → Distinct (open_one p pid procs)
  Distinct-open_one pid procs h = elim (Bool-cases (elem pid procs)) [
    | inl e ↦ rw e h
    | inr e ↦ elim (Bool-cases (p.opens pid)) [
      | inl o ↦ rw (e, o) (Distinct-append procs pid h e)
      | inr o ↦ rw (e, o) h
    ]
  ]

  elem-open_one :
      (pid x : ℕ) (procs : List ℕ)
      → elem x (open_one p pid procs) ≡ (elem x procs || ((x == pid) && p.opens x))
  unfolding elem
  elem-open_one pid x procs = elim (Bool-cases (x == pid)) [
    | inl e ↦
        let same : x ≡ pid = (==_iff x pid).0 e in
        rw (← same) (ground (arith, elem-append x procs (x ∷ []), (==_iff x x).1 refl))
    | inr e ↦ ground (arith, elem-append x procs (pid ∷ []), e)
  ]

  Distinct-open_new : (pids procs : List ℕ) → Distinct procs → Distinct (open_new p pids procs)
  unfolding open_new
  Distinct-open_new [] procs h = h
  Distinct-open_new (pid ∷ pids) procs h =
      Distinct-open_new pids (open_one p pid procs) (Distinct-open_one pid procs h)

  elem-open_new :
      (x : ℕ) (pids procs : List ℕ)
      → elem x (open_new p pids procs) ≡ (elem x procs || (elem x pids && p.opens x))
  unfolding open_new elem
  elem-open_new x [] procs = ground arith
  elem-open_new x (pid ∷ pids) procs =
      elem-open_new x pids (open_one p pid procs) ∙ rw (elem-open_one pid x procs) (ground arith)

  process_rows-Answers : (pids : List ℕ) → Answers p pids (process_rows p pids)
  unfolding process_rows
  process_rows-Answers [] = nobody
  process_rows-Answers (pid ∷ pids) = elim (Option-cases (p.row pid)) [
    | inl e ↦ rw (e, process_rows) (silent pid e (process_rows-Answers pids))
    | inr (r, e) ↦ rw (e, process_rows) (answers pid r e (process_rows-Answers pids))
  ]

  pub known-IsListing :
      (procs : List ℕ)
      → Distinct procs
      → IsListing p procs
          (top_processes p procs).1
          (process_rows p (open_new p p.pids (drop_ended p.pids procs)))
  unfolding top_processes drop_ended
  known-IsListing procs h = record {
    distinct = Distinct-open_new p.pids _ (Distinct-filter _ procs h);
    running = λ x.
        elem-open_new x p.pids _ ∙ rw (elem-filter (λ pid. elem pid p.pids) x procs) (ground arith);
    answering = process_rows-Answers _;
  }
