-- ===== src/Platform/Server.antt =====
-- The MongoDB server behind its driver: what a find, an insert, an update and a delete do to the
-- documents of one collection. It is a parameter of the model, with its documented behaviour as a
-- hypothesis: a collection is read and changed as a list of documents in their natural order, and
-- a sort may order documents that tie as it likes.
use mathlib.Core.List.{Perm}
use cicd_demo.Base.{
  Bool, List, ◌++◌, ◌≡◌, sym, subst, keep, discard, discard_first, change_first, change_all,
}

-- How a transaction ends.
pub data Ending : Type 0 where
  committed aborted : Ending

pub record Mongo : Type 1 where
  pub find : (D : Type 0) → (D → Bool) → List D → List D
  pub insert_many : (D : Type 0) → List D → List D → List D
  pub update_one : (D : Type 0) → (D → Bool) → (D → D) → List D → List D
  pub update_many : (D : Type 0) → (D → Bool) → (D → D) → List D → List D
  pub delete_one : (D : Type 0) → (D → Bool) → List D → List D
  pub delete_many : (D : Type 0) → (D → Bool) → List D → List D
  -- by a test that says whether the first document may stand before the second
  pub sort : (D : Type 0) → (D → D → Bool) → List D → List D
  -- the data after a transaction, from those before it and those that its body made
  pub settle : (D : Type 0) → Ending → D → D → D

abbrev pub Sort : Type 1
Sort = (D : Type 0) → (D → D → Bool) → List D → List D

-- A transaction takes effect as a whole when it commits, and not at all when it is aborted.
abbrev pub all_or_nothing {ℓ} : {D : Type ℓ} → Ending → D → D → D
all_or_nothing committed before after = after
all_or_nothing aborted before after = before

-- The server as the documentation describes it, for some way to sort.
abbrev pub on_lists : Sort → Mongo
on_lists order_by = record {
  find = λ D test docs. keep test docs;
  insert_many = λ D new docs. docs ++ new;
  update_one = λ D test change docs. change_first test change docs;
  update_many = λ D test change docs. change_all test change docs;
  delete_one = λ D test docs. discard_first test docs;
  delete_many = λ D test docs. discard test docs;
  sort = order_by;
  settle = λ D ending before after. all_or_nothing ending before after;
}

-- A server that behaves as documented.
pub data IsDocumented : Mongo → Type 1 where
  lists :
      (order_by : Sort)
      → ((D : Type 0) (le : D → D → Bool) (docs : List D) → Perm (order_by D le docs) docs)
      → IsDocumented (on_lists order_by)

-- The same, operation by operation.
pub record Documentation (m : Mongo) : Type 1 where
  pub find : (D : Type 0) (test : D → Bool) (docs : List D) → m.find D test docs ≡ keep test docs
  pub insert_many : (D : Type 0) (new docs : List D) → m.insert_many D new docs ≡ docs ++ new
  pub update_one :
      (D : Type 0) (test : D → Bool) (change : D → D) (docs : List D)
      → m.update_one D test change docs ≡ change_first test change docs
  pub update_many :
      (D : Type 0) (test : D → Bool) (change : D → D) (docs : List D)
      → m.update_many D test change docs ≡ change_all test change docs
  pub delete_one :
      (D : Type 0) (test : D → Bool) (docs : List D)
      → m.delete_one D test docs ≡ discard_first test docs
  pub delete_many :
      (D : Type 0) (test : D → Bool) (docs : List D) → m.delete_many D test docs ≡ discard test docs
  pub settle :
      (D : Type 0) (ending : Ending) (before after : D)
      → m.settle D ending before after ≡ all_or_nothing ending before after
  pub sort : (D : Type 0) (le : D → D → Bool) (docs : List D) → Perm (m.sort D le docs) docs

on_lists-eq : (m : Mongo) → Documentation m → on_lists m.sort ≡ m
on_lists-eq m d = λ i. record {
  find = λ D test docs. sym (d.find D test docs) i;
  insert_many = λ D new docs. sym (d.insert_many D new docs) i;
  update_one = λ D test change docs. sym (d.update_one D test change docs) i;
  update_many = λ D test change docs. sym (d.update_many D test change docs) i;
  delete_one = λ D test docs. sym (d.delete_one D test docs) i;
  delete_many = λ D test docs. sym (d.delete_many D test docs) i;
  sort = m.sort;
  settle = λ D ending before after. sym (d.settle D ending before after) i;
}

-- A server each of whose operations keeps its documentation is one of the above.
pub IsDocumented_of : (m : Mongo) → Documentation m → IsDocumented m
IsDocumented_of m d = subst IsDocumented (on_lists-eq m d) (lists m.sort d.sort)
