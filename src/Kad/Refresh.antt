-- ===== src/Kad/Refresh.antt =====
-- The questions that the tracker asks a routing table: the nodes closest to a target, and what is to
-- be looked up next. A duration that would be negative is shorter than every limit, as 0 is.
use goed2k.Common.{
  ℕ, ◌+◌, ◌-◌, List, [], ◌∷◌, ◌++◌, Bool, true, false, ◌&&◌, ◌||◌, not, Option, none, some, ltb,
  leb, if◌then◌else◌, length, take,
}
use goed2k.Common.Int.{pos, negsuc}
use goed2k.Kad.{KadId, distance_compare, random_id_within_bucket}
use goed2k.Kad.Table.{Node, Bucket, Table}

abbrev pub is_closer : KadId → Node → Node → Bool
is_closer target a b = elim (distance_compare a.id b.id target) [ pos n ↦ false | negsuc n ↦ true ]

-- `sort.Slice` orders the nodes by distance. Nodes of one distance have one identifier.
unfoldable pub insert_sorted : KadId → Node → List Node → List Node
unfolding distance_compare
insert_sorted target n [] = n ∷ []
insert_sorted target n (m ∷ ms) =
    let rest = insert_sorted target n ms in if is_closer target m n then m ∷ rest else n ∷ m ∷ ms

unfoldable pub sort_by_distance : KadId → List Node → List Node
unfolding insert_sorted
sort_by_distance target [] = []
sort_by_distance target (n ∷ ns) = insert_sorted target n (sort_by_distance target ns)

unfoldable pub confirmed : Bool → List Node → List Node
confirmed include_unconfirmed [] = []
confirmed include_unconfirmed (n ∷ ns) =
    let rest = confirmed include_unconfirmed ns in
    if not include_unconfirmed && not n.pinged then rest else n ∷ rest

unfoldable pub all_live : Bool → List Bucket → List Node
unfolding confirmed
all_live include_unconfirmed [] = []
all_live include_unconfirmed (b ∷ bs) =
    confirmed include_unconfirmed b.live ++ all_live include_unconfirmed bs

-- A limit of 0 is none.
unfoldable pub find_closest : Table → KadId → ℕ → Bool → List Node
unfolding sort_by_distance all_live
find_closest t target limit include_unconfirmed =
    let nodes = sort_by_distance target (all_live include_unconfirmed t.buckets) in
    if ltb 0 limit && ltb limit (length nodes) then take limit nodes else nodes

unfoldable pub size_of : List Bucket → ℕ × ℕ
size_of [] = (0, 0)
size_of (b ∷ bs) =
    let (live, replacements) = size_of bs in
    (length b.live + live, length b.replacements + replacements)

abbrev pub is_past : ℕ → Option ℕ → ℕ → Bool
is_past now none seconds = true
is_past now (some t) seconds = leb seconds (now - t)

unfoldable pub need_bootstrap : Table → ℕ → Bool × Table
unfolding size_of
need_bootstrap t now =
    let (live, replacements) = size_of t.buckets in
    if ltb 0 live || leb t.bucket_size replacements
    then (false, t)
    else (if is_past now t.last_bootstrap 30
        then (true, record t { last_bootstrap = some now })
        else (false, t))

abbrev older : ℕ → ℕ → Option (ℕ × ℕ) → Option (ℕ × ℕ)
older i last none = some (i, last)
older i last (some (index, oldest)) =
    if ltb last oldest then some (i, last) else some (index, oldest)

-- The bucket that was active longest ago, of those that were not active for 15 minutes.
unfoldable pub stalest : ℕ → ℕ → List Bucket → Option (ℕ × ℕ) → Option (ℕ × ℕ)
stalest now i [] best = best
stalest now i (b ∷ bs) best =
    stalest now (i + 1) bs
      (if ltb (now - b.last_active) 900 then best else older i b.last_active best)

abbrev waits : ℕ → Option ℕ → Bool
waits now none = false
waits now (some t) = ltb (now - t) 45

abbrev refresh_at : Option KadId → Table → ℕ → Option (ℕ × ℕ) → Option KadId × Table
refresh_at random t now none = (none, t)
refresh_at random t now (some (index, oldest)) =
    if waits now t.last_refresh
    then (none, t)
    else (some (random_id_within_bucket random index t.self), record t { last_refresh = some now })

-- The target of a refresh: the own identifier, or a random one of a bucket.
unfoldable pub need_refresh : Option KadId → Table → ℕ → Option KadId × Table
unfolding stalest random_id_within_bucket
need_refresh random t now =
    if is_past now t.last_self_refresh 900
    then (some t.self, record t { last_self_refresh = some now })
    else refresh_at random t now (stalest now 0 t.buckets none)
