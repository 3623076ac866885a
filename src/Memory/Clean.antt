-- ===== src/Memory/Clean.antt =====
-- What internal/memory/memory.go keeps: no secret-like text, and an index of just the items.
use mosaid.Base.{
  ℕ, ◌≡◌, refl, sym, String, false, Option, none, List, [], ◌∷◌, ◌++◌, map, All, All-update,
  All-delete, All-append, All-first_where, Bool-cases, Option-cases, inl, inr, ◌==◌, first_where,
  delete_where, length,
}
use mosaid.Skills.Text.{trim_space}
use mosaid.Memory.{
  CandidateRow, ItemRow, IndexRow, MemoryDb, Kept, kept, refused, is_secret, candidate, approve,
  remember, approve_kept, forget, approve_row, awaits, is_candidate, item_of, index_of,
}

-- A text that may be kept.
abbrev pub IsClean : List ℕ → Type 0
IsClean content = (is_secret content ≡ false) × ((length content == 0) ≡ false)

module _ {F : Type 0} where
  pub record IsKept (db : MemoryDb F) : Type 0 where
    pub candidates : All (λ (r : CandidateRow F). IsClean r.content) db.candidates
    pub items : All (λ (i : ItemRow F). IsClean i.content) db.items
    pub index : db.index ≡ map index_of db.items

  abbrev pub empty : MemoryDb F
  empty = record {
    candidates = [];
    items = [];
    index = [];
    links = [];
    next_candidate = 1;
    next_item = 1;
  }

  -- One method, with whatever arguments and readings of the clock.
  pub data Step (db : MemoryDb F) : MemoryDb F → Type 0 where
    proposes :
        (now : ℕ) (text : List ℕ) (source : String) (confidence : F) (expires : Option ℕ)
        → Step db (candidate db now text source confidence expires).0
    approves : (now id : ℕ) → Step db (approve db now id).0
    remembers :
        (one : F) (now later : ℕ) (text : List ℕ) → Step db (remember one db now later text).0
    forgets : (id : ℕ) → Step db (forget db id)

  pub data Reach (db : MemoryDb F) : MemoryDb F → Type 0 where
    here : Reach db db
    next : {a b : MemoryDb F} → Reach db a → Step a b → Reach db b

  candidate-IsKept :
      (db : MemoryDb F) (now : ℕ) (text : List ℕ) (source : String) (confidence : F)
      (expires : Option ℕ)
      → IsKept db
      → IsKept (candidate db now text source confidence expires).0
  unfolding candidate
  candidate-IsKept db now text source confidence expires k =
      elim (Bool-cases (length (trim_space text) == 0)) [
        | inl e ↦ rw (e, candidate) k
        | inr e ↦ elim (Bool-cases (is_secret (trim_space text))) [
          | inl s ↦ rw (e, candidate, s) k
          | inr s ↦
              rw (e, candidate, s)
                record {
                  candidates = All-append _ db.candidates _ k.candidates ((s, e), tt);
                  items = k.items;
                  index = k.index;
                }
        ]
      ]

  map-append :
      (xs : List (ItemRow F)) (x : ItemRow F)
      → map index_of (xs ++ x ∷ []) ≡ map index_of xs ++ index_of x ∷ []
  map-append [] x = refl
  map-append (y ∷ xs) x = rw (map-append xs x) refl

  approve-IsKept : (db : MemoryDb F) (now id : ℕ) → IsKept db → IsKept (approve db now id).0
  unfolding approve
  approve-IsKept db now id k = elim (Option-cases (first_where (awaits id) db.candidates)) [
    | inl e ↦ rw (e, approve) k
    | inr (r, e) ↦
        let clean = All-first_where _ (awaits id) db.candidates r k.candidates e in
        rw (e, approve)
          record {
            candidates =
                All-update _ (is_candidate id) approve_row (λ x t c. c) db.candidates k.candidates;
            items = All-append _ db.items _ k.items (clean, tt);
            index = rw k.index (sym (map-append db.items (item_of db.next_item now r)));
          }
  ]

  approve_kept-IsKept :
      (result : MemoryDb F × Kept) (later : ℕ)
      → IsKept result.0
      → IsKept (approve_kept result later).0
  approve_kept-IsKept (db, kept id) later k = approve-IsKept db later id k
  approve_kept-IsKept (db, refused e) later k = k

  map-delete :
      (id : ℕ) (xs : List (ItemRow F))
      → delete_where (λ (x : IndexRow). x.rowid == id) (map index_of xs)
        ≡ map index_of (delete_where (λ (i : ItemRow F). i.id == id) xs)
  map-delete id [] = refl
  map-delete id (x ∷ xs) = elim (Bool-cases (x.id == id)) [
    | inl e ↦ rw e (map-delete id xs)
    | inr e ↦ rw (e, map-delete id xs) refl
  ]

  Step-IsKept : {a b : MemoryDb F} → Step a b → IsKept a → IsKept b
  unfolding remember forget
  Step-IsKept {a} (proposes now text source confidence expires) k =
      candidate-IsKept a now text source confidence expires k
  Step-IsKept {a} (approves now id) k = approve-IsKept a now id k
  Step-IsKept {a} (remembers one now later text) k =
      approve_kept-IsKept (candidate a now text "telegram:explicit" one none) later
        (candidate-IsKept a now text _ one none k)
  Step-IsKept {a} (forgets id) k = record {
    candidates = k.candidates;
    items = All-delete _ (λ (i : ItemRow F). i.id == id) a.items k.items;
    index = rw k.index (map-delete id a.items);
  }

  -- What is kept, after any sequence of candidates, approvals, remembered and forgotten texts from
  -- empty tables: no candidate and no item is empty or has a text like a secret, and the text index
  -- has exactly the items, by identifier and content.
  pub Reach-IsKept : {db : MemoryDb F} → Reach empty db → IsKept db
  Reach-IsKept here = record { candidates = tt; items = tt; index = refl }
  Reach-IsKept (next way step) = Step-IsKept step (Reach-IsKept way)
