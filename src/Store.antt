-- ===== src/Store.antt =====
-- store.go: the interface of tape stores, and what it asks of them.
pub mod Memory
pub mod Listing
pub mod Saved
use httptape.Prelude.{
  Text, ◌≡◌, ◌≢◌, ◌⊎◌, Bool, true, false, not, ◌&&◌, ◌||◌, Option, none, some, List, is_empty,
  if◌then◌else◌, ◌==◌, text_eq,
}
use httptape.Tape.{Tape}

-- an error of the context, or one that wraps ErrNotFound
pub data StoreError : Type 0 where
  context_error not_found : StoreError

pub data Loaded : Type 0 where
  failed : StoreError → Loaded
  loaded : Tape → Loaded

pub data Listed : Type 0 where
  not_listed : StoreError → Listed
  listed : List Tape → Listed

pub record Filter : Type 0 where
  pub route : Text
  pub method : Text

-- the two tests in the loop of `List`
unfoldable pub passes : Filter → Tape → Bool
passes filter t =
    (is_empty filter.route || t.route == filter.route)
    && (is_empty filter.method || t.request.method == filter.method)

-- The operations on a store whose state is in `S`. The first argument of each tells whether the
-- context is cancelled.
pub record Store (S : Type 0) : Type 0 where
  pub save : Bool → Tape → S → Option StoreError × S
  pub load : Bool → Text → S → Loaded
  pub list : Bool → Filter → S → Listed
  pub delete : Bool → Text → S → Option StoreError × S

abbrev pub loaded_from : Option Tape → Loaded
loaded_from none = failed not_found
loaded_from (some t) = loaded t

abbrev pub deleted_from : Option Tape → Option StoreError
deleted_from none = some not_found
deleted_from (some t) = none

-- What the interface promises, over a view of the state as a map from IDs to tapes: a save
-- overwrites the tape of the same ID only, and one that returns an error may have left any ID as it was;
-- a load returns what the map has, a delete removes that and nothing else, a missing ID is reported, and a
-- cancelled context changes nothing.
pub record IsStore {S : Type 0} (store : Store S) (contents : S → Text → Option Tape) : Type 0 where
  pub save_contents :
      (t : Tape) (s : S) (id : Text)
      → (contents (store.save false t s).1 id ≡ (if t.id == id then some t else contents s id))
        ⊎ (((store.save false t s).0 ≢ none)
            × (contents (store.save false t s).1 id ≡ contents s id))
  pub load_contents : (id : Text) (s : S) → store.load false id s ≡ loaded_from (contents s id)
  pub delete_found :
      (id : Text) (s : S) → (store.delete false id s).0 ≡ deleted_from (contents s id)
  pub delete_contents :
      (id : Text) (s : S) (other : Text)
      → contents (store.delete false id s).1 other
        ≡ (if id == other then none else contents s other)
  pub save_cancelled : (t : Tape) (s : S) → store.save true t s ≡ (some context_error, s)
  pub load_cancelled : (id : Text) (s : S) → store.load true id s ≡ failed context_error
  pub list_cancelled : (f : Filter) (s : S) → store.list true f s ≡ not_listed context_error
  pub delete_cancelled : (id : Text) (s : S) → store.delete true id s ≡ (some context_error, s)

-- The store takes the tape, whatever its state: a save with a live context has no error.
abbrev pub Takes : {S : Type 0} → Store S → Tape → Type 0
Takes store t = (s : _) → (store.save false t s).0 ≡ none
