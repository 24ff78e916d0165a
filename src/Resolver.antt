-- ===== src/Resolver.antt =====
-- src/transport/resolver.rs: the set of resources that an executor declares. An array with its count is
-- the list of what is counted; the hash BLAKE2s-256 is a parameter.
pub mod Grammar
pub mod Lookup
pub mod Sets
pub mod Examples
use bolina_rs.Prelude.{
  ℕ, zero, suc, ◌+◌, ◌-◌, ◌*◌, ◌/◌, ◌%◌, Bool, true, false, not, ◌&&◌, ◌||◌, Option, none, some,
  List, [], ◌∷◌, ◌++◌, length, get_or, take, drop, leb, ltb, ◌==◌, if◌then◌else◌, Result, ok, err,
}
use bolina_rs.Prelude.Outcome.{◌>>=◌, ◌>>◌, refuse_if, ok_or, map_err}
use bolina_rs.Prelude.Bytes.{Bytes, bytes_eq, slice, to_be_bytes}
use bolina_rs.Prelude.Bits.{repeat}
use bolina_rs.Prelude.Search.{any, find_index, get_elem?, retain}
use bolina_rs.Intent as Pending
use bolina_rs.Resolver.Grammar.{fp_hex_len, id_max, validate_canonical}

abbrev pub fp_bytes : ℕ
fp_bytes = 8

abbrev pub max_resources : ℕ
max_resources = 32

abbrev pub max_aliases : ℕ
max_aliases = 64

pub data ResolveError : Type 0 where
  malformed_canonical set_full alias_pool_full duplicate_entry unknown_resource : ResolveError
  ambiguous_resource foreign_executor buffer_too_small : ResolveError
  intent : Pending.IntentError → ResolveError

-- An entry is its canonical bytes.
pub record Alias : Type 0 where
  pub bytes : Bytes
  pub entry : ℕ

pub record Resolver : Type 0 where
  pub own_fp : Bytes
  pub entries : List Bytes
  pub aliases : List Alias

-- The character of a digit in `b"0123456789abcdef"`.
unfoldable pub hex_digit : ℕ → ℕ
hex_digit d = if ltb d 10 then 48 + d else 87 + d

unfoldable pub hex : Bytes → Bytes
unfolding hex_digit
hex [] = []
hex (b ∷ bs) = hex_digit (b / 16) ∷ hex_digit (b % 16) ∷ hex bs

module _ (hash : Bytes → Bytes) where
  pub executor_fp : Bytes → Bytes
  unfolding hex
  executor_fp sig_pubkey = hex (take fp_bytes (hash sig_pubkey))

  pub new : Bytes → Resolver
  new sig_pubkey = record { own_fp = executor_fp sig_pubkey; entries = []; aliases = [] }

unfoldable pub find_entry : Bytes → Resolver → Option ℕ
unfolding find_index
find_entry canonical r = find_index (λ e. bytes_eq e canonical) r.entries

unfoldable pub alias_hits : ℕ → Bytes → Resolver → Bool
unfolding any
alias_hits i proposed r = any (λ (a : Alias). (a.entry == i) && bytes_eq a.bytes proposed) r.aliases

-- `entries[entry_count] = canonical` under the guards.
pub add : Bytes → Resolver → Resolver × Result (Unit {0}) ResolveError
unfolding find_entry any
add canonical r =
    if not (validate_canonical canonical)
    then (r, err malformed_canonical)
    else if ltb id_max (length canonical)
    then (r, err malformed_canonical)
    else if length r.entries == max_resources
    then (r, err set_full)
    else if any (λ e. bytes_eq e canonical) r.entries
    then (r, err duplicate_entry)
    else (record r { entries = r.entries ++ canonical ∷ [] }, ok tt)

-- `aliases[alias_count] = alias` for the entry at the index.
unfoldable add_alias_at : Option ℕ → Bytes → Resolver → Resolver × Result (Unit {0}) ResolveError
add_alias_at none alias r = (r, err unknown_resource)
add_alias_at (some idx) alias r =
    if length r.aliases == max_aliases
    then (r, err alias_pool_full)
    else (record r { aliases = r.aliases ++ (record { bytes = alias; entry = idx }) ∷ [] }, ok tt)

pub add_alias : Bytes → Bytes → Resolver → Resolver × Result (Unit {0}) ResolveError
unfolding find_entry add_alias_at
add_alias canonical alias r =
    if length alias == 0 || ltb id_max (length alias)
    then (r, err malformed_canonical)
    else add_alias_at (find_entry canonical r) alias r

-- The entry at `i` goes by the name proposed.
unfoldable pub names : Resolver → Bytes → ℕ → Bytes → Bool
unfolding alias_hits
names r proposed i e = bytes_eq e proposed || alias_hits i proposed r

-- What a hit at `i` makes of `found`.
unfoldable pub on_hit : ℕ → Option ℕ → Result (Option ℕ) ResolveError
on_hit i none = ok (some i)
on_hit i (some f) = if not (f == i) then err ambiguous_resource else ok (some f)

-- The loop of `resolve`, over the entries from `i` on.
unfoldable pub resolve_loop :
    Resolver → Bytes → ℕ → List Bytes → Option ℕ → Result (Option ℕ) ResolveError
unfolding names on_hit
resolve_loop r proposed i [] found = ok found
resolve_loop r proposed i (e ∷ es) found = do
  found ← if names r proposed i e then on_hit i found else ok found
  resolve_loop r proposed (i + 1) es found

-- The canonical bytes of what was found.
unfoldable pub canonical_of : Option ℕ → Resolver → Result Bytes ResolveError
unfolding ok_or get_elem? refuse_if
canonical_of none r = err unknown_resource
canonical_of (some idx) r = do
  c ← ok_or unknown_resource (get_elem? r.entries idx)
  refuse_if (not (bytes_eq (slice 4 (4 + fp_hex_len) c) r.own_fp)) foreign_executor
  ok c

unfoldable pub resolve : Bytes → Resolver → Result Bytes ResolveError
unfolding resolve_loop canonical_of
resolve proposed r = do found ← resolve_loop r proposed 0 r.entries none; canonical_of found r

-- The aliases of the entry at `i`.
unfoldable pub aliases_of : ℕ → List Alias → List Alias
unfolding retain
aliases_of i xs = retain (λ (a : Alias). a.entry == i) xs

unfoldable pub aliases_len : List Alias → ℕ
aliases_len [] = 0
aliases_len (a ∷ xs) = 2 + length a.bytes + aliases_len xs

unfoldable pub len_from : Resolver → ℕ → List Bytes → ℕ
unfolding aliases_len aliases_of
len_from r i [] = 0
len_from r i (e ∷ es) =
    2 + length e + 2 + aliases_len (aliases_of i r.aliases) + len_from r (i + 1) es

pub serialized_len : Resolver → ℕ
unfolding len_from
serialized_len r = len_from r 0 r.entries

unfoldable pub alias_bytes : List Alias → Bytes
alias_bytes [] = []
alias_bytes (a ∷ xs) = to_be_bytes 2 (length a.bytes) ++ (a.bytes ++ alias_bytes xs)

-- What `serialize` writes, entry by entry.
unfoldable pub bytes_from : Resolver → ℕ → List Bytes → Bytes
unfolding alias_bytes aliases_of
bytes_from r i [] = []
bytes_from r i (e ∷ es) =
    to_be_bytes 2 (length e)
    ++ (e
        ++ (to_be_bytes 2 (length (aliases_of i r.aliases))
            ++ (alias_bytes (aliases_of i r.aliases) ++ bytes_from r (i + 1) es)))

-- The buffer `out` comes back with its first bytes written, and the length of these.
pub serialize : Bytes → Resolver → Bytes × Result ℕ ResolveError
unfolding bytes_from serialized_len
serialize out r = if ltb (length out) (serialized_len r) then (out, err buffer_too_small) else (
  bytes_from r 0 r.entries ++ drop (length (bytes_from r 0 r.entries)) out,
  ok (length (bytes_from r 0 r.entries)),
)

-- The canonical bytes in a buffer of 256, filled with zeros.
abbrev pub padded : Bytes → Bytes
unfolding repeat
padded c = c ++ repeat (256 - length c) 0

unfoldable pub after_admit :
    Pending.Table × Result (Unit {0}) Pending.IntentError
    → Pending.Table × Result (Unit {0}) ResolveError
after_admit (t, r) = (t, map_err intent r)

unfoldable pub admit_resolved :
    Bytes
    → ℕ
    → Pending.Table
    → Result Bytes ResolveError
    → Pending.Table × Result (Unit {0}) ResolveError
unfolding after_admit
admit_resolved id now t (err e) = (t, err e)
admit_resolved id now t (ok c) =
    if ltb 256 (length c)
    then (t, err malformed_canonical)
    else after_admit (Pending.admit id (padded c) (length c) now t)

unfoldable pub resolve_and_admit :
    Bytes → Bytes → ℕ → Resolver → Pending.Table → Pending.Table × Result (Unit {0}) ResolveError
unfolding admit_resolved
resolve_and_admit id resource_id now r t = admit_resolved id now t (resolve resource_id r)
