-- ===== src/Shard/Placement.antt =====
-- internal/shard/plan_placement.go: which layers go to which device. An `int` is a number here, as
-- counts of layers are never negative in a checked profile.
pub mod Shares
pub mod HandedOut
pub mod Assigned
pub mod Fit
pub mod Layers
use m_aistr.Prelude.{
  ℕ, zero, suc, ◌+◌, ◌-◌, ◌*◌, ◌/◌, ◌%◌, ◌==◌, ltb, leb, String, Bool, true, false, ◌&&◌, Option,
  none, some, List, [], ◌∷◌, sort_by, if◌then◌else◌,
}
use m_aistr.Shard.Memory.{max_uint64, multiply_divide_floor_rem, multiply_divide_ceil, add_two}

-- The start of a partition's layers and the layer behind them.
unfoldable pub layer_range : ℕ → ℕ → ℕ → ℕ × ℕ
layer_range total_layers partitions index =
    let base = total_layers / partitions in
    let remainder = total_layers % partitions in
    let start = index * base + (if ltb index remainder then index else remainder) in
    let count = if ltb index remainder then base + 1 else base in (start, start + count)

-- Of a memoryDevice: what the placement reads.
pub record MemoryDevice : Type 0 where
  pub free_bytes : ℕ
  pub usable_bytes : ℕ
  pub max_layers : ℕ

unfoldable pub total_capacity : List MemoryDevice → ℕ → Option ℕ
total_capacity [] total = some total
total_capacity (r ∷ rs) total =
    let rest = total_capacity rs (total + r.free_bytes) in
    if ltb (max_uint64 - total) r.free_bytes then none else rest

unfoldable pub max_layer_capacity : ℕ → List MemoryDevice → ℕ → ℕ
max_layer_capacity layer_count [] capacity = capacity
max_layer_capacity layer_count (r ∷ rs) capacity =
    let rest = max_layer_capacity layer_count rs (capacity + r.max_layers) in
    if leb (layer_count - capacity) r.max_layers then layer_count else rest

-- What a loop over the devices gives: the assignments, the remainders and the layers it handed out.
abbrev pub Shares : Type 0
Shares = List ℕ × List ℕ × ℕ

abbrev pub push : ℕ → ℕ → ℕ → Option Shares → Option Shares
push assignment remainder share none = none
push assignment remainder share (some (assignments, remainders, taken)) =
    some (assignment ∷ assignments, remainder ∷ remainders, share + taken)

abbrev pub cap_at : ℕ → ℕ → ℕ
cap_at cap share = if ltb cap share then cap else share

-- The first loop: each device's share of the layers by its free memory.
unfoldable pub first_shares : ℕ → ℕ → List MemoryDevice → Option Shares
first_shares layer_count total [] = some ([], [], 0)
first_shares layer_count total (r ∷ rs) =
    let rest = first_shares layer_count total rs in
    if r.free_bytes == 0
    then push 0 0 0 rest
    else elim (multiply_divide_floor_rem layer_count r.free_bytes total) [
      | none ↦ none
      | some (share, remainder) ↦
          push (cap_at r.max_layers share) remainder (cap_at r.max_layers share) rest
    ]

-- The indices, from `i` on, of the devices that have room for another layer.
unfoldable pub open_slots : ℕ → List MemoryDevice → List ℕ → List ℕ
open_slots i [] assignments = []
open_slots i (r ∷ rs) [] = []
open_slots i (r ∷ rs) (a ∷ assignments) =
    let rest = open_slots (suc i) rs assignments in if ltb a r.max_layers then i ∷ rest else rest

abbrev pub remainder_at : List ℕ → ℕ → ℕ
remainder_at [] i = 0
remainder_at (r ∷ remainders) zero = r
remainder_at (r ∷ remainders) (suc i) = remainder_at remainders i

-- The larger remainder first, and then the lower index.
unfoldable pub by_remainder : List ℕ → ℕ → ℕ → Bool
by_remainder remainders left right =
    let l = remainder_at remainders left in
    let r = remainder_at remainders right in if l == r then ltb left right else ltb r l

abbrev pub increment : ℕ → List ℕ → List ℕ
increment i [] = []
increment zero (a ∷ assignments) = suc a ∷ assignments
increment (suc i) (a ∷ assignments) = a ∷ increment i assignments

-- One more layer for each device in the order, while layers remain.
unfoldable pub hand_out : List ℕ → ℕ → List ℕ → List ℕ × ℕ
hand_out [] remaining assignments = (assignments, remaining)
hand_out (i ∷ order) remaining assignments =
    let rest = hand_out order (remaining - 1) (increment i assignments) in
    if remaining == 0 then (assignments, remaining) else rest

-- The weight of the devices that have room.
unfoldable pub active_weight : List MemoryDevice → List ℕ → ℕ → Option ℕ
active_weight [] assignments weight = some weight
active_weight (r ∷ rs) [] weight = some weight
active_weight (r ∷ rs) (a ∷ assignments) weight =
    let more = active_weight rs assignments (weight + r.free_bytes) in
    let same = active_weight rs assignments weight in
    if ltb a r.max_layers
    then if ltb (max_uint64 - weight) r.free_bytes then none else more
    else same

-- A round's loop over the devices.
unfoldable pub round_shares : ℕ → ℕ → List MemoryDevice → List ℕ → Option Shares
round_shares layers weight [] assignments = some ([], [], 0)
round_shares layers weight (r ∷ rs) [] = some ([], [], 0)
round_shares layers weight (r ∷ rs) (a ∷ assignments) =
    let rest = round_shares layers weight rs assignments in
    if leb r.max_layers a
    then push a 0 0 rest
    else elim (multiply_divide_floor_rem layers r.free_bytes weight) [
      | none ↦ none
      | some (share, remainder) ↦
          push (a + cap_at (r.max_layers - a) share) remainder (cap_at (r.max_layers - a) share)
            rest
    ]

pub data Assignment : Type 0 where
  assigned : List ℕ → Assignment
  refused out_of_fuel : Assignment

-- A round ends the loop, or leaves layers for the next.
pub data Round : Type 0 where
  stop : Assignment → Round
  next : ℕ → List ℕ → Round

unfoldable pub hand_out_by : List MemoryDevice → List ℕ → ℕ → List ℕ → List ℕ × ℕ
unfolding hand_out
hand_out_by rs remainders remaining assignments =
    hand_out (sort_by (by_remainder remainders) (open_slots 0 rs assignments)) remaining assignments

unfoldable pub after_shares : List MemoryDevice → ℕ → Option Shares → Round
after_shares rs before none = stop refused
after_shares rs before (some (assignments, remainders, taken)) =
    let remaining = before - taken in
    let (assignments', remaining') = hand_out_by rs remainders remaining assignments in
    if remaining == 0
    then stop (assigned assignments)
    else if remaining' == before
    then stop refused
    else next remaining' assignments'

unfoldable pub weighted : List MemoryDevice → ℕ → List ℕ → Option ℕ → Round
unfolding after_shares
weighted rs remaining assignments none = stop refused
weighted rs remaining assignments (some weight) =
    if weight == 0
    then stop refused
    else after_shares rs remaining (round_shares remaining weight rs assignments)

unfoldable pub round : List MemoryDevice → ℕ → List ℕ → Round
unfolding weighted
round rs remaining assignments = weighted rs remaining assignments (active_weight rs assignments 0)

-- The loop over the rounds.
unfoldable pub spread : List MemoryDevice → ℕ → ℕ → List ℕ → Assignment
spread rs fuel zero assignments = assigned assignments
spread rs zero (suc remaining) assignments = out_of_fuel
spread rs (suc fuel) (suc remaining) assignments = elim (round rs (suc remaining) assignments) [
  | stop result ↦ result
  | next left assignments' ↦ spread rs fuel left assignments'
]

unfoldable pub from_shares : List MemoryDevice → ℕ → Option Shares → Assignment
from_shares rs layer_count none = refused
from_shares rs layer_count (some (assignments, remainders, taken)) =
    let remaining = layer_count - taken in
    let (assignments', remaining') =
      if ltb 0 remaining
      then hand_out_by rs remainders remaining assignments
      else (assignments, remaining) in
    spread rs layer_count remaining' assignments'

unfoldable pub of_capacity : List MemoryDevice → ℕ → Option ℕ → Assignment
unfolding from_shares
of_capacity rs layer_count none = refused
of_capacity rs layer_count (some total) =
    if total == 0
    then refused
    else if ltb (max_layer_capacity layer_count rs 0) layer_count
    then refused
    else from_shares rs layer_count (first_shares layer_count total rs)

-- proportionalLayerAssignments. The fuel is the number of layers.
unfoldable pub proportional_layer_assignments : List MemoryDevice → ℕ → Assignment
unfolding of_capacity
proportional_layer_assignments [] layer_count = refused
proportional_layer_assignments (r ∷ rs) layer_count =
    of_capacity (r ∷ rs) layer_count (total_capacity (r ∷ rs) 0)

-- The binary search for the most layers whose weights and cache fit. The fuel is the number of
-- layers.
unfoldable pub layers_fit : ℕ → ℕ → ℕ → ℕ → ℕ → Bool
layers_fit usable weights_bytes kv_bytes layer_count layers =
    elim (multiply_divide_ceil weights_bytes layers layer_count) [
      | none ↦ false
      | some weights ↦ elim (multiply_divide_ceil kv_bytes layers layer_count) [
        | none ↦ false
        | some kv ↦ elim (add_two weights kv) [ none ↦ false | some total ↦ leb total usable ]
      ]
    ]

unfoldable pub bisect : (ℕ → Bool) → ℕ → ℕ → ℕ → Option ℕ
bisect fits zero low high = if ltb low high then none else some low
bisect fits (suc fuel) low high =
    let middle = low + (high - low + 1) / 2 in
    let upper = bisect fits fuel middle high in
    let lower = bisect fits fuel low (middle - 1) in
    if ltb low high then if fits middle then upper else lower else some low

unfoldable pub maximum_layers_that_fit : ℕ → ℕ → ℕ → ℕ → Option ℕ
unfolding bisect layers_fit
maximum_layers_that_fit usable weights_bytes kv_bytes layer_count =
    bisect (layers_fit usable weights_bytes kv_bytes layer_count) layer_count 0 layer_count
