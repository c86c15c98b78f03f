-- ===== src/Command.antt =====
-- cmd/wdxref/main.go: the roles of the process and what they exclude, and the retention of
-- the changelog. time.ParseDuration is an argument; durations are nanoseconds.
pub mod Roles
use wdxref.Base.{
  ℕ, ◌*◌, ◌^◌, ◌≡◌, refl, Bool, true, false, ◌&&◌, ◌||◌, Option, none, some, List, [], ◌∷◌, ◌++◌,
  Bytes, codes, beq, contains, if◌then◌else◌, Result, ok, err,
}
use wdxref.Base.Int.{ℤ, pos, ◌*ℤ◌}
use wdxref.Base.Strings.{split, join, trim_left, trim_right, trim_space}
use wdxref.Strconv.{parse_int, checked}
use wdxref.Watcher.Wikidata.{wrap_int64, minute}

abbrev pub role_api : Bytes
role_api = codes "api"

abbrev pub role_primary : Bytes
role_primary = codes "primary"

abbrev pub role_replica : Bytes
role_replica = codes "replica"

abbrev pub role_replicator : Bytes
role_replicator = codes "replicator"

abbrev pub is_role : Bytes → Bool
is_role r = beq r role_api || (beq r role_primary || (beq r role_replica || beq r role_replicator))

-- The loop of selectRoles: the roles, or an unknown one.
unfoldable pub read_roles : List Bytes → Result Bytes (List Bytes)
unfolding beq trim_left trim_right
read_roles [] = ok []
read_roles (r ∷ rs) =
    let role = trim_space r in
    let rest = read_roles rs in
    if beq role []
    then rest
    else if is_role role
    then elim rest [ err e ↦ err e | ok roles ↦ ok (role ∷ roles) ]
    else err role

-- selectRoles; the set of roles is a list that may repeat one.
unfoldable pub select_roles : List Bytes → Bytes → Result Bytes (List Bytes)
unfolding read_roles split
select_roles [] [] = read_roles []
select_roles [] (b ∷ env) = read_roles (split b',' (b ∷ env))
select_roles (a ∷ args) env = read_roles (a ∷ args)

abbrev pub ordered_roles : List Bytes
ordered_roles = role_primary ∷ role_replica ∷ role_replicator ∷ role_api ∷ []

-- The loop of roleList.
unfoldable pub listed_roles : List Bytes → List Bytes → List Bytes
unfolding contains
listed_roles roles [] = []
listed_roles roles (r ∷ rs) =
    let rest = listed_roles roles rs in if contains r roles then r ∷ rest else rest

-- roleList
unfoldable pub role_list : List Bytes → Bytes
unfolding listed_roles join
role_list roles = join (codes ",") (listed_roles roles ordered_roles)

-- What main does before it connects to the store: it exits, or goes on with these roles.
pub data Start : Type 0 where
  invalid_roles : Start
  no_roles : Start
  exclusive_roles : Start
  go_on : List Bytes → Start

unfoldable pub start : List Bytes → Bytes → Start
unfolding select_roles contains
start args env = elim (select_roles args env) [
  | err e ↦ invalid_roles
  | ok [] ↦ no_roles
  | ok (r ∷ rs) ↦
      if contains role_primary (r ∷ rs) && contains role_replica (r ∷ rs)
      then exclusive_roles
      else go_on (r ∷ rs)
]

-- DefaultChangelogRetention is the argument `default_retention`.
unfoldable pub parse_changelog_retention : (Bytes → Option ℤ) → ℤ → Bytes → Result Bytes ℤ
unfolding checked parse_int ◌*ℤ◌
parse_changelog_retention parse_duration default_retention [] = ok default_retention
parse_changelog_retention parse_duration default_retention (b ∷ v) = elim (parse_duration (b ∷ v)) [
  | some d ↦ ok d
  | none ↦ elim (checked (parse_int (b ∷ v))) [
    | err _ ↦ err (b ∷ v)
    | ok h ↦ ok (wrap_int64 (h *ℤ pos (60 * minute)))
  ]
]
