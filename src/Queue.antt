-- ===== src/Queue.antt =====
-- The doubly linked lists of include/queue.h. A list head and the link field that its elements
-- use (`page_free_list` with `pp_link`, `env_free_list` with `env_link`, `env_sched_list` with
-- `env_sched_link`) are one value; an element is its index in the array that holds it.
pub mod Chain
pub mod Insert
pub mod Remove
use jos_buaa_a20_porting.Prelude.{ℕ, Bool, true, false, Option, none, some, ◌==◌, if◌then◌else◌}

-- `le_prev`: NULL, the address of the head's `lh_first`, or that of an element's `le_next`.
pub data Prev : Type 0 where
  null head : Prev
  at : ℕ → Prev

pub record Links : Type 0 where
  pub first : Option ℕ
  pub next : ℕ → Option ℕ
  pub prev : ℕ → Prev

abbrev pub update {ℓ} : {A : Type ℓ} → (ℕ → A) → ℕ → A → ℕ → A
update f i a j = if j == i then a else f j

-- zeroed memory
abbrev pub zeroed : Links
zeroed = record { first = none; next = λ _. none; prev = λ _. null }

-- `LIST_EMPTY`
abbrev pub is_empty : Links → Bool
is_empty l = elim l.first [ none ↦ true | some _ ↦ false ]

-- `LIST_INIT`
abbrev pub init : Links → Links
init l = record l { first = none }

-- `x->le_prev = p` for the element behind a pointer that is not NULL
abbrev pub set_prev_of : Option ℕ → Prev → (ℕ → Prev) → ℕ → Prev
set_prev_of none p f = f
set_prev_of (some x) p f = update f x p

-- `LIST_INSERT_HEAD`
unfoldable pub insert_head : Links → ℕ → Links
insert_head l elm = record {
  first = some elm;
  next = update l.next elm l.first;
  prev = update (set_prev_of l.first (at elm) l.prev) elm head;
}

-- `LIST_INSERT_AFTER`
unfoldable pub insert_after : Links → ℕ → ℕ → Links
insert_after l listelm elm = record l {
  next = update (update l.next elm (l.next listelm)) listelm (some elm);
  prev = update (set_prev_of (l.next listelm) (at elm) l.prev) elm (at listelm);
}

-- `*le_prev = n`; `none` is a write through NULL
abbrev pub write_through : Links → Prev → Option ℕ → Option Links
write_through l null n = none
write_through l head n = some (record l { first = n })
write_through l (at x) n = some (record l { next = update l.next x n })

-- `LIST_INSERT_BEFORE`
unfoldable pub insert_before : Links → ℕ → ℕ → Option Links
insert_before l listelm elm =
    let l' : Links = record l {
      next = update l.next elm (some listelm);
      prev = update l.prev elm (l.prev listelm);
    } in
    elim (write_through l' (l'.prev listelm) (some elm)) [
      | none ↦ none
      | some m ↦ some (record m { prev = update m.prev listelm (at elm) })
    ]

-- `LIST_REMOVE`
unfoldable pub remove : Links → ℕ → Option Links
remove l elm =
    let l' : Links = record l { prev = set_prev_of (l.next elm) (l.prev elm) l.prev } in
    write_through l' (l'.prev elm) (l.next elm)
