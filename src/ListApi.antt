-- ===== src/ListApi.antt =====
-- c/old_practice/work_srcs/socket/common/list.h is a copy of the Linux kernel's list.h, which
-- socket_udp takes from its build. What the program calls of it is an interface: a head and the
-- list of the structs that hang on it, from the one after the head on.
use practice_project.Prelude.{ℕ, zero, suc, ◌≡◌, refl, List, [], ◌∷◌, ◌++◌, set, Bool, true, false}

-- `list_empty` on the structs.
abbrev pub is_nil : {A : Type 0} → List A → Bool
is_nil [] = true
is_nil (x ∷ xs) = false

-- The list without the element at an index, if there is one.
abbrev pub remove_at : {A : Type 0} → ℕ → List A → List A
remove_at i [] = []
remove_at zero (x ∷ xs) = xs
remove_at (suc i) (x ∷ xs) = x ∷ remove_at i xs

-- The functions of list.h on an initialised head whose entries are structs of type `A`.
pub record ListApi (A : Type 0) : Type 1 where
  pub Head : Type 0
  pub entries : Head → List A
  -- `INIT_LIST_HEAD`, `list_add`, `list_add_tail`, `list_empty`.
  pub init : Head
  pub add : A → Head → Head
  pub add_tail : A → Head → Head
  pub is_empty : Head → Bool
  -- `list_del` of the struct at an index, counted from the head.
  pub del : ℕ → Head → Head
  -- A write to the struct at an index.
  pub put : ℕ → A → Head → Head
  pub entries-init : entries init ≡ []
  pub entries-add : (x : A) (h : Head) → entries (add x h) ≡ x ∷ entries h
  pub entries-add_tail : (x : A) (h : Head) → entries (add_tail x h) ≡ entries h ++ x ∷ []
  pub is_empty-entries : (h : Head) → is_empty h ≡ is_nil (entries h)
  pub entries-del : (i : ℕ) (h : Head) → entries (del i h) ≡ remove_at i (entries h)
  pub entries-put : (i : ℕ) (x : A) (h : Head) → entries (put i x h) ≡ set (entries h) i x

-- Lists themselves are heads.
abbrev pub plain_lists : (A : Type 0) → ListApi A
plain_lists A = record {
  Head = List A;
  entries = λ h. h;
  init = [];
  add = λ x h. x ∷ h;
  add_tail = λ x h. h ++ x ∷ [];
  is_empty = is_nil;
  del = remove_at;
  put = λ i x h. set h i x;
  entries-init = refl;
  entries-add = λ x h. refl;
  entries-add_tail = λ x h. refl;
  is_empty-entries = λ h. refl;
  entries-del = λ i h. refl;
  entries-put = λ i x h. refl;
}
