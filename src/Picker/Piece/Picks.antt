-- ===== src/Picker/Piece/Picks.antt =====
-- What `pick_blocks` takes, against a description that has no loop over the order's length.
use goed2k.Common.{
  ℕ, zero, suc, ◌+◌, ◌≤◌, ◌<◌, ◌≡◌, refl, inl, inr, List, [], ◌∷◌, Bool, true, false, ◌&&◌, ◌||◌,
  ◌∙◌, not, ◌^◌, ltb, leb, Option, none, some, ◌==◌, if◌then◌else◌, length, get_elem?, take, arith,
  Bool-cases,
}
use mathlib.Core.Option
use goed2k.Geometry.{PieceBlock}
use goed2k.Picker.Block.{
  BlockState, state_none, state_requested, state_writing, state_finished, Peer, peer_eq, PeerSpeed,
  DownloadingBlock, request,
}
use goed2k.Picker.Piece.{DownloadingPiece, count_state, is_wanted, pick_loop, pick_blocks}

-- Two pointers, either of which may be nil, to different peers.
abbrev pub are_different : Option Peer → Option Peer → Bool
are_different none none = false
are_different none (some q) = true
are_different (some p) none = true
are_different (some p) (some q) = if p == q then false else true

-- Whether a block may be given to the peer: a free one always, one that is requested in the end game
-- only, if its count of downloaders is below 2 as an int16, its speed below that of the peer, and its
-- last downloader another one; no other.
abbrev pub may_take :
    BlockState → ℕ → Option Peer → PeerSpeed → Option Peer → PeerSpeed → Bool → Bool
may_take state_none count last slower peer speed end_game = true
may_take state_requested count last slower peer speed false = false
may_take state_requested count last slower peer speed true =
    (ltb count 2 || leb (2 ^ 15) count) && (ltb slower speed && are_different last peer)
may_take state_writing count last slower peer speed end_game = false
may_take state_finished count last slower peer speed end_game = false

-- The numbers of the blocks that `peer` may take, in order.
unfoldable pub wanted :
    ℕ → ℕ → List DownloadingBlock → Option Peer → PeerSpeed → Bool → List PieceBlock
wanted piece i [] peer speed end_game = []
wanted piece i (b ∷ bs) peer speed end_game =
    if may_take b.state b.downloaders_count b.last_downloader b.speed peer speed end_game
    then record { piece_index = piece; piece_block = i }
      ∷ wanted piece (i + 1) bs peer speed end_game
    else wanted piece (i + 1) bs peer speed end_game

-- Is block `j` among those that were picked?
unfoldable pub has_block : ℕ → List PieceBlock → Bool
has_block j [] = false
has_block j (r ∷ rs) = r.piece_block == j || has_block j rs

has_block-congr : (i j : ℕ) (rs : List PieceBlock) → i ≡ j → has_block i rs ≡ has_block j rs
has_block-congr i j rs e = rw e

different : (p q : Option Peer) → not (peer_eq p q) ≡ are_different p q
different none none = refl
different none (some q) = refl
different (some p) none = refl
different (some p) (some q) = ground arith

state_wanted :
    (s : BlockState) (count : ℕ) (last : Option Peer) (slower : PeerSpeed) (peer : Option Peer)
    (speed : PeerSpeed) (eg : Bool)
    → is_wanted
        (record { state = s; downloaders_count = count; last_downloader = last; speed = slower })
        peer
        speed
        eg
      ≡ may_take s count last slower peer speed eg
unfolding is_wanted
state_wanted state_none count last slower peer speed eg = refl
state_wanted state_requested count last slower peer speed false = refl
state_wanted state_requested count last slower peer speed true = ground (arith, different last peer)
state_wanted state_writing count last slower peer speed true = refl
state_wanted state_writing count last slower peer speed false = refl
state_wanted state_finished count last slower peer speed true = refl
state_wanted state_finished count last slower peer speed false = refl

-- The test of the loop agrees with the description.
is_wanted-may_take :
    (b : DownloadingBlock) (peer : Option Peer) (speed : PeerSpeed) (eg : Bool)
    → is_wanted b peer speed eg
      ≡ may_take b.state b.downloaders_count b.last_downloader b.speed peer speed eg
is_wanted-may_take b peer speed eg =
    state_wanted b.state b.downloaders_count b.last_downloader b.speed peer speed eg

pick_loop-wanted :
    (piece i : ℕ) (bs : List DownloadingBlock) (left : ℕ) (peer : Option Peer) (speed : PeerSpeed)
    (eg : Bool)
    → (pick_loop piece i bs left peer speed eg).1 ≡ take left (wanted piece i bs peer speed eg)
unfolding pick_loop wanted
pick_loop-wanted piece i [] zero peer speed eg = refl
pick_loop-wanted piece i [] (suc left) peer speed eg = refl
pick_loop-wanted piece i (b ∷ bs) zero peer speed eg = refl
pick_loop-wanted piece i (b ∷ bs) (suc left) peer speed eg = ground (
  arith,
  is_wanted-may_take b peer speed eg,
  pick_loop-wanted piece (i + 1) bs left peer speed eg,
  pick_loop-wanted piece (i + 1) bs (suc left) peer speed eg,
)

-- The blocks from block `i` on have numbers from `i` on.
wanted_below :
    (piece i j : ℕ) (bs : List DownloadingBlock) (n : ℕ) (peer : Option Peer) (speed : PeerSpeed)
    (eg : Bool)
    → j < i
    → has_block j (take n (wanted piece i bs peer speed eg)) ≡ false
unfolding has_block wanted
wanted_below piece i j bs zero peer speed eg h = refl
wanted_below piece i j [] (suc n) peer speed eg h = refl
wanted_below piece i j (b ∷ bs) (suc n) peer speed eg h = ground (
  arith,
  wanted_below piece (i + 1) j bs n peer speed eg,
  wanted_below piece (i + 1) j bs (suc n) peer speed eg,
)

has_block-below :
    (piece i j : ℕ) (bs : List DownloadingBlock) (left : ℕ) (peer : Option Peer) (speed : PeerSpeed)
    (eg : Bool)
    → j < i
    → has_block j (pick_loop piece i bs left peer speed eg).1 ≡ false
has_block-below piece i j bs left peer speed eg h =
    rw pick_loop-wanted (wanted_below piece i j bs left peer speed eg h)

-- A block after the loop: requested for `peer` if it was picked, and as it was if not.
abbrev pub after_pick : Bool → Option Peer → PeerSpeed → DownloadingBlock → DownloadingBlock
after_pick picked peer speed b = if picked then request b peer speed else b

unchanged : (o : Option DownloadingBlock) → o ≡ Option.map (λ b. b) o
unchanged none = refl
unchanged (some b) = refl

pick_loop-block :
    (piece i j : ℕ) (bs : List DownloadingBlock) (left : ℕ) (peer : Option Peer) (speed : PeerSpeed)
    (eg : Bool)
    → let p = pick_loop piece i bs left peer speed eg in
      get_elem? p.0 j ≡ Option.map (after_pick (has_block (i + j) p.1) peer speed) (get_elem? bs j)
unfolding pick_loop has_block
pick_loop-block piece i j [] left peer speed eg = refl
pick_loop-block piece i zero (b ∷ bs) zero peer speed eg = refl
pick_loop-block piece i (suc j) (b ∷ bs) zero peer speed eg = unchanged (get_elem? bs j)
pick_loop-block piece i zero (b ∷ bs) (suc left) peer speed eg = ground (
  arith,
  has_block-below piece (i + 1) (i + 0) bs left peer speed eg,
  has_block-below piece (i + 1) (i + 0) bs (suc left) peer speed eg,
)
pick_loop-block piece i (suc j) (b ∷ bs) (suc left) peer speed eg = ground (
  arith,
  pick_loop-block piece (i + 1) j bs left peer speed eg,
  pick_loop-block piece (i + 1) j bs (suc left) peer speed eg,
  has_block-congr (i + 1 + j) (i + suc j) (pick_loop piece (i + 1) bs left peer speed eg).1,
  has_block-congr (i + 1 + j) (i + suc j) (pick_loop piece (i + 1) bs (suc left) peer speed eg).1,
)

-- A piece whose blocks are all requested has none that is free.
count_state-le : (s : BlockState) (bs : List DownloadingBlock) → count_state s bs ≤ length bs
unfolding count_state
count_state-le s [] = omega arith
count_state-le s (b ∷ bs) = ground (arith, count_state-le s bs)

wanted_full :
    (piece i : ℕ) (bs : List DownloadingBlock) (peer : Option Peer) (speed : PeerSpeed)
    → count_state state_requested bs ≡ length bs
    → wanted piece i bs peer speed false ≡ []
unfolding wanted count_state is_wanted
wanted_full piece i [] peer speed h = refl
wanted_full piece i (b ∷ bs) peer speed h = ground (
  arith,
  is_wanted-may_take b peer speed false,
  count_state-le state_requested bs,
  wanted_full piece (i + 1) bs peer speed,
)

take-nil : (n : ℕ) → take {A = PieceBlock} n [] ≡ []
take-nil zero = refl
take-nil (suc n) = refl

-- What PickBlocks appends to the request list is exactly the first order-length blocks, in
-- order, that the peer may take: those that are free and, in the end game, those that are
-- requested with fewer than 2 downloaders (an int16), at a lower speed than the peer's and last
-- by another peer.
pub pick_blocks-wanted :
    (d : DownloadingPiece) (n : ℕ) (peer : Option Peer) (speed : PeerSpeed) (eg : Bool)
    → (pick_blocks d n peer speed eg).1 ≡ take n (wanted d.piece_index 0 d.blocks peer speed eg)
unfolding pick_blocks
pick_blocks-wanted d n peer speed true = pick_loop-wanted d.piece_index 0 d.blocks n peer speed true
pick_blocks-wanted d n peer speed false = ground (
  arith,
  pick_loop-wanted d.piece_index 0 d.blocks n peer speed false,
  wanted_full d.piece_index 0 d.blocks peer speed,
  take-nil n,
)

-- After PickBlocks each block of the piece that was picked is requested for the peer at its
-- speed, and each other block is as it was.
pub pick_blocks-block :
    (d : DownloadingPiece) (n j : ℕ) (peer : Option Peer) (speed : PeerSpeed) (eg : Bool)
    → let p = pick_blocks d n peer speed eg in
      get_elem? p.0.blocks j
      ≡ Option.map (after_pick (has_block j p.1) peer speed) (get_elem? d.blocks j)
unfolding pick_blocks has_block
pick_blocks-block d n j peer speed eg = ground (
  arith,
  pick_loop-block d.piece_index 0 j d.blocks n peer speed eg,
  has_block-congr (0 + j) j (pick_loop d.piece_index 0 d.blocks n peer speed eg).1,
  unchanged (get_elem? d.blocks j),
)

has_block-wanted :
    (piece i j n : ℕ) (bs : List DownloadingBlock) (peer : Option Peer) (speed : PeerSpeed)
    (eg : Bool)
    → has_block (i + j) (take n (wanted piece i bs peer speed eg)) ≡ true
    → (b : DownloadingBlock) × (get_elem? bs j ≡ some b) × (is_wanted b peer speed eg ≡ true)
unfolding has_block wanted
has_block-wanted piece i j zero bs peer speed eg h = cc
has_block-wanted piece i j (suc n) [] peer speed eg h = cc
has_block-wanted piece i zero (suc n) (b ∷ bs) peer speed eg h =
    elim (Bool-cases
      (may_take b.state b.downloaders_count b.last_downloader b.speed peer speed eg)) [
        | inl w ↦ (b, refl, is_wanted-may_take b peer speed eg ∙ w)
        | inr w ↦
            absurd (ground (arith, wanted_below piece (i + 1) (i + 0) bs (suc n) peer speed eg))
      ]
has_block-wanted piece i (suc j) (suc n) (b ∷ bs) peer speed eg h =
    elim (Bool-cases
      (may_take b.state b.downloaders_count b.last_downloader b.speed peer speed eg)) [
        | inl w ↦ has_block-wanted piece (i + 1) j n bs peer speed eg (
            ground (
              arith,
              has_block-congr (i + 1 + j) (i + suc j)
                  (take n (wanted piece (i + 1) bs peer speed eg)),
            ))
        | inr w ↦ has_block-wanted piece (i + 1) j (suc n) bs peer speed eg (
            ground (
              arith,
              has_block-congr (i + 1 + j) (i + suc j)
                  (take (suc n) (wanted piece (i + 1) bs peer speed eg)),
            ))
      ]

-- Outside the end game PickBlocks picks only blocks whose state was free.
pub pick_blocks-free :
    (d : DownloadingPiece) (n j : ℕ) (peer : Option Peer) (speed : PeerSpeed)
    → has_block j (pick_blocks d n peer speed false).1 ≡ true
    → (b : DownloadingBlock) × (get_elem? d.blocks j ≡ some b) × (b.state ≡ state_none)
pick_blocks-free d n j peer speed h =
    let (b, e, w) = has_block-wanted d.piece_index 0 j n d.blocks peer speed false (
      ground (
        arith,
        pick_blocks-wanted d n peer speed false,
        has_block-congr (0 + j) j (take n (wanted d.piece_index 0 d.blocks peer speed false)),
      )) in
    (b, e, unfold is_wanted in ground arith)
