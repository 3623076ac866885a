-- ===== src/Memory.antt =====
-- internal/memory/memory.go: candidates for memory, the items that they become, and the text index of
-- the items. A method runs one or two transactions on the tables below; the database answers every
-- statement, and a confidence is a parameter's value. Search and Export only read.
pub mod Clean
mod Examples
use mosaid.Base.{
  ℕ, zero, suc, ◌+◌, String, Bool, true, false, ◌&&◌, ◌||◌, not, Option, none, some, List, [], ◌∷◌,
  ◌++◌, codes, ltb, leb, ◌==◌, if◌then◌else◌, first_where, update_where, delete_where, length,
}
use mosaid.Skills.Names.{is_upper, is_lower, is_digit}
use mosaid.Skills.Text.{trim_space}

-- A letter without its case: (?i) also takes U+017F for s and U+212A for k.
abbrev pub fold_case : ℕ → ℕ
fold_case c =
    if is_upper c then c + 32 else if c == 383 then b's' else if c == 8490 then b'k' else c

unfoldable pub after_word : List ℕ → List ℕ → Option (List ℕ)
after_word [] cs = some cs
after_word (w ∷ ws) [] = none
after_word (w ∷ ws) (c ∷ cs) = if fold_case c == w then after_word ws cs else none

-- \s
abbrev pub is_blank : ℕ → Bool
is_blank c = c == 9 || (c == 10 || (c == 12 || (c == 13 || c == 32)))

abbrev pub skip_blanks : List ℕ → List ℕ
skip_blanks [] = []
skip_blanks (c ∷ cs) = if is_blank c then skip_blanks cs else c ∷ cs

abbrev pub starts : List ℕ → Bool
starts [] = false
starts (c ∷ cs) = true

abbrev pub after_sign : List ℕ → Bool
after_sign [] = false
after_sign (c ∷ cs) = (c == b':' || c == b'=') && starts (skip_blanks cs)

-- \s*[:=]\s*\S+ after a word, if the word is there.
abbrev pub assigned : Option (List ℕ) → Bool
assigned none = false
assigned (some cs) = after_sign (skip_blanks cs)

-- [_ -]?key
abbrev pub skip_joint : List ℕ → List ℕ
skip_joint [] = []
skip_joint (c ∷ cs) = if c == b'_' || (c == b' ' || c == b'-') then cs else c ∷ cs

abbrev pub after_api : Option (List ℕ) → Option (List ℕ)
after_api none = none
after_api (some cs) = after_word (codes "key") (skip_joint cs)

abbrev pub in_key : ℕ → Bool
in_key c = is_lower (fold_case c) || (is_digit c || (c == b'_' || c == b'-'))

-- At least so many characters of [A-Za-z0-9_-].
unfoldable pub key_of : ℕ → List ℕ → Bool
key_of zero cs = true
key_of (suc n) [] = false
key_of (suc n) (c ∷ cs) = in_key c && key_of n cs

abbrev pub after_sk : Option (List ℕ) → Bool
after_sk none = false
after_sk (some cs) = key_of 12 cs

unfoldable pub secret_here : List ℕ → Bool
secret_here cs =
    assigned (after_api (after_word (codes "api") cs))
    || (assigned (after_word (codes "token") cs)
        || (assigned (after_word (codes "password") cs)
            || (assigned (after_word (codes "secret") cs)
                || after_sk (after_word (codes "sk-") cs))))

-- The pattern `secret`, anywhere in the text.
unfoldable pub is_secret : List ℕ → Bool
is_secret [] = false
is_secret (c ∷ cs) = secret_here (c ∷ cs) || is_secret cs

pub data CandidateState : Type 0 where
  pending approved : CandidateState

abbrev pub is_pending : CandidateState → Bool
is_pending pending = true
is_pending approved = false

-- Contents are texts as lists of code points.
pub record CandidateRow (F : Type 0) : Type 0 where
  pub id : ℕ
  pub content : List ℕ
  pub source : String
  pub confidence : F
  pub expires_at : Option ℕ
  pub state : CandidateState
  pub created_at : ℕ

pub record ItemRow (F : Type 0) : Type 0 where
  pub id : ℕ
  pub content : List ℕ
  pub source : String
  pub confidence : F
  pub expires_at : Option ℕ
  pub created_at : ℕ

-- A row of memory_links.
pub record LinkRow : Type 0 where
  pub memory_id : ℕ
  pub kind : String
  pub target : String

-- A row of memory_fts.
pub record IndexRow : Type 0 where
  pub rowid : ℕ
  pub content : List ℕ

-- The tables, with the next identifiers.
pub record MemoryDb (F : Type 0) : Type 0 where
  pub candidates : List (CandidateRow F)
  pub items : List (ItemRow F)
  pub index : List IndexRow
  pub links : List LinkRow
  pub next_candidate : ℕ
  pub next_item : ℕ

pub data MemoryError : Type 0 where
  empty_memory secret_like no_rows : MemoryError

-- An identifier, or an error.
pub data Kept : Type 0 where
  kept : ℕ → Kept
  refused : MemoryError → Kept

module _ {F : Type 0} where
  abbrev pub is_candidate : ℕ → CandidateRow F → Bool
  is_candidate id r = r.id == id

  -- WHERE id=? AND state='pending'
  abbrev pub awaits : ℕ → CandidateRow F → Bool
  awaits id r = is_candidate id r && is_pending r.state

  abbrev pub approve_row : CandidateRow F → CandidateRow F
  approve_row r = record r { state = approved }

  unfoldable pub candidate : MemoryDb F → ℕ → List ℕ → String → F → Option ℕ → MemoryDb F × Kept
  candidate db now text source confidence expires =
      let content = trim_space text in
      if length content == 0
      then (db, refused empty_memory)
      else if is_secret content
      then (db, refused secret_like)
      else (
        record db {
          candidates =
              db.candidates
              ++ record {
                id = db.next_candidate;
                content = content;
                source = source;
                confidence = confidence;
                expires_at = expires;
                state = pending;
                created_at = now;
              }
                ∷ [];
          next_candidate = suc db.next_candidate;
        },
        kept db.next_candidate,
      )

  abbrev pub item_of : ℕ → ℕ → CandidateRow F → ItemRow F
  item_of id now r = record {
    id = id;
    content = r.content;
    source = r.source;
    confidence = r.confidence;
    expires_at = r.expires_at;
    created_at = now;
  }

  abbrev pub index_of : ItemRow F → IndexRow
  index_of i = record { rowid = i.id; content = i.content }

  unfoldable pub approve : MemoryDb F → ℕ → ℕ → MemoryDb F × Kept
  approve db now id = elim (first_where (awaits id) db.candidates) [
    | none ↦ (db, refused no_rows)
    | some r ↦ (
      record db {
        candidates = update_where (is_candidate id) approve_row db.candidates;
        items = db.items ++ item_of db.next_item now r ∷ [];
        index = db.index ++ index_of (item_of db.next_item now r) ∷ [];
        next_item = suc db.next_item;
      },
      kept db.next_item,
    )
  ]

  abbrev pub approve_kept : MemoryDb F × Kept → ℕ → MemoryDb F × Kept
  approve_kept (db, kept id) now = approve db now id
  approve_kept (db, refused e) now = (db, refused e)

  -- The two transactions of Remember, with the clock's readings in them.
  unfoldable pub remember : F → MemoryDb F → ℕ → ℕ → List ℕ → MemoryDb F × Kept
  remember one db now later text =
      approve_kept (candidate db now text "telegram:explicit" one none) later

  unfoldable pub forget : MemoryDb F → ℕ → MemoryDb F
  forget db id = record db {
    index = delete_where (λ (x : IndexRow). x.rowid == id) db.index;
    links = delete_where (λ (l : LinkRow). l.memory_id == id) db.links;
    items = delete_where (λ (i : ItemRow F). i.id == id) db.items;
  }
