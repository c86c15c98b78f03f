-- ===== src/Command/Roles.antt =====
-- The roles that the process starts with.
use wdxref.Base.{
  ◌≡◌, ◌≢◌, refl, sym, Bool, true, false, ◌&&◌, List, [], ◌∷◌, Bytes, codes, beq, contains, All,
  Bool-cases, Result-cases, inl, inr, ok, arith, if◌then◌else◌,
}
use mathlib.Core.Path.{subst}
use wdxref.Base.Strings.{split, join, trim_space}
use wdxref.Command.{
  role_api, role_primary, role_replica, role_replicator, is_role, read_roles, select_roles,
  ordered_roles, listed_roles, role_list, go_on, start,
}

-- The roles of a set, by whether it has the primary, the replica, the replicator and the API.
abbrev flagged : Bool → Bool → Bool → Bool → List Bytes
flagged p r t a =
    let api = if a then role_api ∷ [] else [] in
    let replicator = if t then role_replicator ∷ api else api in
    let replica = if r then role_replica ∷ replicator else replicator in
    if p then role_primary ∷ replica else replica

listed-flagged :
    (roles : List Bytes)
    → listed_roles roles ordered_roles
      ≡ flagged
          (contains role_primary roles)
          (contains role_replica roles)
          (contains role_replicator roles)
          (contains role_api roles)
unfolding listed_roles
listed-flagged roles = refl

select-flagged :
    (p r t a : Bool) → select_roles [] (join (codes ",") (flagged p r t a)) ≡ ok (flagged p r t a)
unfolding select_roles join
select-flagged true true true true = refl
select-flagged true true true false = refl
select-flagged true true false true = refl
select-flagged true true false false = refl
select-flagged true false true true = refl
select-flagged true false true false = refl
select-flagged true false false true = refl
select-flagged true false false false = refl
select-flagged false true true true = refl
select-flagged false true true false = refl
select-flagged false true false true = refl
select-flagged false true false false = refl
select-flagged false false true true = refl
select-flagged false false true false = refl
select-flagged false false false true = refl
select-flagged false false false false = refl

-- The text that lists a set of roles, taken for the environment's value, selects exactly the known
-- roles of the set.
pub select_roles-role_list :
    (roles : List Bytes) → select_roles [] (role_list roles) ≡ ok (listed_roles roles ordered_roles)
unfolding role_list
select_roles-role_list roles =
    subst (λ l. select_roles [] (join (codes ",") l) ≡ ok l) (sym (listed-flagged roles))
      (select-flagged _ _ _ _)

read_roles-All :
    (raw roles : List Bytes) → read_roles raw ≡ ok roles → All (λ r. is_role r ≡ true) roles
unfolding read_roles
read_roles-All [] [] h = tt
read_roles-All [] (r ∷ roles) h = cc
read_roles-All (x ∷ raw) roles h = elim (Bool-cases (beq (trim_space x) [])) [
  | inl blank ↦ read_roles-All raw roles (ground arith)
  | inr word ↦ elim (Bool-cases (is_role (trim_space x))) [
    | inr unknown ↦ absurd (ground arith)
    | inl known ↦ elim (Result-cases (read_roles raw)) [
      | inr (e, bad) ↦ absurd (ground arith)
      | inl (more, good) ↦
          let same : trim_space x ∷ more ≡ roles = ground arith in
          rw (← same) (known, read_roles-All raw more good)
    ]
  ]
]

select_roles-All :
    (args : List Bytes) (env : Bytes) (roles : List Bytes)
    → select_roles args env ≡ ok roles
    → All (λ r. is_role r ≡ true) roles
unfolding select_roles
select_roles-All [] [] roles h = read_roles-All [] roles h
select_roles-All [] (b ∷ env) roles h = read_roles-All (split b',' (b ∷ env)) roles h
select_roles-All (a ∷ args) env roles h = read_roles-All (a ∷ args) roles h

-- The process goes on only with known roles, at least one, and never with the primary and the replica
-- together.
pub start_sound :
    (args : List Bytes) (env : Bytes) (roles : List Bytes)
    → start args env ≡ go_on roles
    → All (λ r. is_role r ≡ true) roles
      × (roles ≢ [])
      × ((contains role_primary roles && contains role_replica roles) ≡ false)
unfolding start
start_sound args env roles h = elim (Result-cases (select_roles args env)) [
  | inr (e, bad) ↦ absurd (ground arith)
  | inl ([], good) ↦ absurd (ground arith)
  | inl (r ∷ rs, good) ↦
      elim (Bool-cases (contains role_primary (r ∷ rs) && contains role_replica (r ∷ rs))) [
        | inl both ↦ absurd (ground arith)
        | inr apart ↦
            let same : r ∷ rs ≡ roles = ground arith in
            rw (← same) (select_roles-All args env (r ∷ rs) good, λ e. cc, apart)
      ]
]
