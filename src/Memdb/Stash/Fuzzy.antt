-- ===== src/Memdb/Stash/Fuzzy.antt =====
-- src/memdb/stash.rs: the SDKs that a request names, looked up by id or by a fuzzy match.
use Prim.Native.Nat.{Ordering, compare}
use symbolserver.Prelude.{ℕ, Bool, true, false, none, some, List, [], take}
use symbolserver.Prelude.Order.{and_then, is_lt}
use symbolserver.Prelude.Sort.{sort_by}
use symbolserver.Errors.{Str, err, unknown_sdk}
use symbolserver.Sdk.{SdkInfo, sdk_cmp, get_fuzzy_match}
use symbolserver.Sdk.Filename.{from_filename}
use symbolserver.Memdb.Read.{MemDb}
use symbolserver.Memdb.Stash.State.{M, ◌>>=◌, pure, lift}
use symbolserver.Memdb.Stash.Sync.{get_local_state, infos}
use symbolserver.Memdb.Stash.Queries.{get_memdb}

-- `Rev`, with its reversed `cmp`.
unfoldable pub rev_cmp : {A : Type 0} → (A → A → Ordering) → A → A → Ordering
rev_cmp cmp a b = cmp b a

abbrev pub bool_cmp : Bool → Bool → Ordering
bool_cmp a b = compare (as_nat a) (as_nat b)
  where
    as_nat : Bool → ℕ
    as_nat false = 0
    as_nat true = 1

-- `get_fuzzy_match(..).unwrap_or(99999)`
unfoldable pub rank : SdkInfo → SdkInfo → ℕ
rank wanted other = elim (get_fuzzy_match other wanted) [ some q ↦ q | none ↦ 99999 ]

-- The key of `sort_by_key`: `(q, info > &sdk_info, Rev(info))`.
unfoldable pub fuzzy_cmp : SdkInfo → SdkInfo → SdkInfo → Ordering
unfolding rev_cmp
fuzzy_cmp wanted a b = and_then (compare (rank wanted a) (rank wanted b)) (
    and_then (bool_cmp (is_lt (sdk_cmp wanted a)) (is_lt (sdk_cmp wanted b))) (rev_cmp sdk_cmp a b))

unfoldable pub fuzzy_matches : List SdkInfo → Str → List SdkInfo
fuzzy_matches known sdk_id = elim (from_filename sdk_id) [
  | none ↦ []
  | some wanted ↦ take 10 (sort_by (fuzzy_cmp wanted) known)
]

unfoldable pub fuzzy_match_sdk_id : Str → M (List SdkInfo)
fuzzy_match_sdk_id sdk_id = do
  local ← get_local_state
  pure (fuzzy_matches (infos local.sdks) sdk_id)

unfoldable pub get_memdb_from_sdk_id : Str → M MemDb
get_memdb_from_sdk_id sdk_id = elim (from_filename sdk_id) [
  | some info ↦ get_memdb info
  | none ↦ lift (err unknown_sdk)
]
