-- ===== src/Service/Snapshots/Refs.antt =====
-- internal/service/service.go and internal/service/workspace_provider.go: the references of snapshots
-- to commits of a workspace, and the names of its branches.
use Prim.Native.Char.{Char, code}
use multi_agent_com.Base.{
  ℕ, String, ◌+++◌, Bool, not, ◌&&◌, ◌||◌, List, [], ◌∷◌, trim, trim_prefix, starts_with, is_empty,
  cut, cut_last, join, leb, eqb, if◌then◌else◌,
}
use multi_agent_com.Service.State.{Result, ok, Error, conflict_error, guard, or_fail, ◌>>=◌, ◌>>◌}

pub record WorkspaceSnapshotRef : Type 0 where
  pub provider : String
  pub branch : String
  pub commit : String

abbrev pub slash : Char
slash = "/"

abbrev pub at_sign : Char
at_sign = "@"

abbrev pub incomplete : Error
incomplete = conflict_error "workspace snapshot ref must include branch and commit"

-- `parseWorkspaceSnapshotRef`
unfoldable pub parse_ref : String → Result WorkspaceSnapshotRef
parse_ref text = do
  guard (starts_with (trim text) "repo://")
      (conflict_error "unsupported workspace snapshot state ref")
  (provider, rest) ←
      or_fail (cut (code slash) (trim_prefix (trim text) "repo://"))
        (conflict_error "workspace snapshot ref provider is required")
  guard (not (is_empty (trim provider)))
      (conflict_error "workspace snapshot ref provider is required")
  (branch, commit) ← or_fail (cut_last (code at_sign) rest) incomplete
  guard (not (is_empty branch || is_empty commit)) incomplete
  guard (not (is_empty (trim branch) || is_empty (trim commit))) incomplete
  ok (record { provider = provider; branch = trim branch; commit = trim commit })

-- The reference that the service writes.
unfoldable pub state_ref : String → String → String
state_ref branch head = "repo://local/" +++ (branch +++ ("@" +++ head))

-- What `gitBranchName` keeps of a code point.
abbrev pub is_branch_code : ℕ → Bool
is_branch_code c =
    (leb 97 c && leb c 122)
    || (leb 65 c && leb c 90)
    || (leb 48 c && leb c 57)
    || eqb c 45
    || eqb c 95
    || eqb c 46

abbrev pub dash : Char
dash = "-"

abbrev pub branch_chars : String → String
branch_chars String.[] = String.[]
branch_chars (String.◌∷◌ c s) =
    String.◌∷◌ (if is_branch_code (code c) then c else dash) (branch_chars s)

abbrev pub is_edge : ℕ → Bool
is_edge c = eqb c 45 || eqb c 46 || eqb c 47

abbrev pub drop_left : String → String
drop_left String.[] = String.[]
drop_left (String.◌∷◌ c s) = if is_edge (code c) then drop_left s else String.◌∷◌ c s

abbrev pub drop_right : String → String
drop_right String.[] = String.[]
drop_right (String.◌∷◌ c s) =
    let r = drop_right s in if is_edge (code c) && is_empty r then String.[] else String.◌∷◌ c r

-- One part of the name.
abbrev pub branch_part : String → String
branch_part part = drop_right (drop_left (branch_chars (trim part)))

abbrev pub branch_parts : List String → List String
branch_parts [] = []
branch_parts (p ∷ ps) =
    let rest = branch_parts ps in
    let part = branch_part p in if is_empty part then rest else part ∷ rest

abbrev pub joined_parts : List String → String
joined_parts [] = "multiagent/workspace"
joined_parts (p ∷ ps) = join "/" (p ∷ ps)

-- `gitBranchName`
unfoldable pub git_branch_name : List String → String
git_branch_name parts = joined_parts (branch_parts parts)
