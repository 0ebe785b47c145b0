-- ===== src/Scripts/Overrides.antt =====
-- `main` of scripts/check_overrides.py: the contracts that implement an interface, and the names in
-- `override` lists. What the regular expressions find in a file is a parameter; an error is kept by the
-- parts of its message.
use based_ai.Prelude.{Bool, not, ◌||◌, List, [], ◌∷◌, ◌++◌, map, select, contains, if◌then◌else◌}
use based_ai.Prelude.Eq.{◌==◌, nat_eq, list_eq}
use based_ai.Prelude.Text.{Str, codes}
use based_ai.Prelude.Dict.{Dict, put, keys}
use based_ai.Prelude.Sort.{sorted}
use based_ai.Merkle.{bytes_le}
use based_ai.Scripts.{strip_strings_and_comments}

-- What `main` reads of a function: its name, and the names in its `override` list.
pub record Function : Type 0 where
  pub name : Str
  pub override_parents : List Str

pub record Contract : Type 0 where
  pub path : Str
  pub kind : Str
  pub parents : List Str
  pub functions : List Function

-- `find_contracts`: the kind, the name and the parents of each
abbrev pub Found : Type 0
Found = Str × Str × List Str

-- The copy of `strip_strings_and_comments`.
abbrev pub strip : Str → Str
strip = strip_strings_and_comments

module _ (find_contracts : Str → List Found) (find_functions : Str → List Function) where
  abbrev pub enter_all : Str → Str → List Found → Dict Str Contract → Dict Str Contract
  enter_all path text [] contracts = contracts
  enter_all path text ((kind, name, parents) ∷ found) contracts = enter_all path text found (
      put name
        (record { path = path; kind = kind; parents = parents; functions = find_functions text })
        contracts)

  -- The loop over the files: the path and the text of each.
  unfoldable pub collect : List (Str × Str) → Dict Str Contract → Dict Str Contract
  collect [] contracts = contracts
  collect ((path, text) ∷ files) contracts =
      collect files (enter_all path (strip text) (find_contracts (strip text)) contracts)

pub data Complaint : Type 0 where
  not_implemented : (path contract interface : Str) (missing : List Str) → Complaint
  unknown_parent : (path function contract parent : Str) → Complaint

abbrev pub function_names : Contract → List Str
function_names c = map (λ f. f.name) c.functions

-- A set comprehension over names.
abbrev pub name_set : List Str → List Str
name_set [] = []
name_set (n ∷ names) = n ∷ select (λ m. not (m == n)) (name_set names)

-- `iface_fns - impl_fn_names`
abbrev pub missing_names : Contract → Contract → List Str
missing_names interface c =
    select (λ n. not (contains n (function_names c))) (name_set (function_names interface))

abbrev pub is_interface : Contract → Bool
is_interface c = c.kind == codes "interface"

abbrev pub report_missing : Str → Str → Contract → List Str → List Complaint
report_missing name cname c [] = []
report_missing name cname c (m ∷ missing) =
    not_implemented c.path cname name (sorted bytes_le (m ∷ missing)) ∷ []

abbrev pub for_all : {A : Type 0} → (A → List Complaint) → List A → List Complaint
for_all f [] = []
for_all f (x ∷ xs) = f x ++ for_all f xs

-- The inner loop of the first check.
unfoldable pub check_implementation : Str × Contract → Str × Contract → List Complaint
check_implementation (name, interface) (cname, c) =
    if is_interface c
    then []
    else if contains name c.parents
    then report_missing name cname c (missing_names interface c)
    else []

unfoldable pub check_interface : Dict Str Contract → Str × Contract → List Complaint
unfolding check_implementation
check_interface contracts entry =
    if not (is_interface entry.1) then [] else for_all (check_implementation entry) contracts

abbrev pub common_parents : List Str
common_parents =
    codes "ERC20"
    ∷ codes "ERC20Permit"
    ∷ codes "ERC20Votes"
    ∷ codes "ERC721"
    ∷ codes "ERC721Enumerable"
    ∷ codes "AccessControl"
    ∷ codes "Governor"
    ∷ codes "GovernorSettings"
    ∷ codes "GovernorCountingSimple"
    ∷ codes "GovernorTimelockControl"
    ∷ codes "Nonces"
    ∷ codes "Context"
    ∷ []

-- A name that the second check knows for a contract.
abbrev pub is_known : Dict Str Contract → Str × Contract → Str → Bool
is_known contracts (cname, c) parent =
    contains parent c.parents
    || parent == cname
    || contains parent (keys contracts)
    || contains parent common_parents

abbrev pub check_parent : Dict Str Contract → Str × Contract → Function → Str → List Complaint
check_parent contracts entry f parent =
    if is_known contracts entry parent
    then []
    else unknown_parent entry.1.path f.name entry.0 parent ∷ []

unfoldable pub check_overrides : Dict Str Contract → Str × Contract → List Complaint
check_overrides contracts entry =
    if is_interface entry.1 || entry.1.kind == codes "library"
    then []
    else for_all (λ f. for_all (check_parent contracts entry f) f.override_parents)
        entry.1.functions

-- The errors that `main` prints, in its order; it returns 1 where there is one.
unfoldable pub find_errors : Dict Str Contract → List Complaint
unfolding check_interface check_overrides
find_errors contracts =
    for_all (check_interface contracts) contracts ++ for_all (check_overrides contracts) contracts
