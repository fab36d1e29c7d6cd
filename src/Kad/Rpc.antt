-- ===== src/Kad/Rpc.antt =====
-- The requests of the KAD tracker that wait for an answer: kad_rpc.go. Times are milliseconds, an
-- address is the number that stands for its text, and so is an observer.
pub mod Accounts
use goed2k.Common.{
  ℕ, zero, suc, ◌+◌, ◌-◌, List, [], ◌∷◌, ◌++◌, Bool, true, false, ◌&&◌, not, Option, none, some,
  leb, ◌==◌, if◌then◌else◌,
}
use goed2k.Kad.{KadId, equal}

pub record Transaction : Type 0 where
  pub endpoint_key : ℕ
  pub opcode : ℕ
  pub target : Option KadId
  pub sent_time : ℕ
  pub multi : Bool
  pub short_timed : Bool
  pub observer : ℕ

pub record RpcManager : Type 0 where
  pub short_timeout : ℕ
  pub timeout : ℕ
  pub transactions : List Transaction

abbrev pub new_rpc_manager : RpcManager
new_rpc_manager = record { short_timeout = 2000; timeout = 12000; transactions = [] }

unfoldable pub invoke : ℕ → RpcManager → Transaction → RpcManager
invoke now m tx = record m { transactions = m.transactions ++ (record tx { sent_time = now } ∷ []) }

unfoldable pub is_target : Option KadId → Option KadId → Bool
unfolding equal
is_target none target = true
is_target (some a) none = false
is_target (some a) (some b) = equal a b

unfoldable pub is_answer : ℕ → ℕ → Option KadId → Transaction → Bool
unfolding is_target
is_answer key opcode target tx =
    (tx.endpoint_key == key && tx.opcode == opcode) && is_target tx.target target

abbrev behind :
    Transaction → Option (Transaction × List Transaction) → Option (Transaction × List Transaction)
behind tx none = none
behind tx (some (found, left)) = some (found, tx ∷ left)

-- The first transaction that is answered, and those that are left: it stays if it takes more answers.
unfoldable pub take_answered :
    ℕ → ℕ → Option KadId → List Transaction → Option (Transaction × List Transaction)
unfolding is_answer
take_answered key opcode target [] = none
take_answered key opcode target (tx ∷ txs) =
    let rest = behind tx (take_answered key opcode target txs) in
    if is_answer key opcode target tx then some (tx, if tx.multi then tx ∷ txs else txs) else rest

abbrev answered :
    RpcManager → Option (Transaction × List Transaction) → RpcManager × Option Transaction
answered m none = (m, none)
answered m (some (tx, left)) = (record m { transactions = left }, some tx)

unfoldable pub incoming : RpcManager → Option ℕ → ℕ → Option KadId → RpcManager × Option Transaction
unfolding take_answered
incoming m none opcode target = (m, none)
incoming m (some key) opcode target = answered m (take_answered key opcode target m.transactions)

-- What is left, what is late for the first time, and what is given up.
pub record Ticked : Type 0 where
  pub left : List Transaction
  pub short_timed : List Transaction
  pub expired : List Transaction

abbrev pub is_short : ℕ → ℕ → Transaction → Bool
is_short short_timeout now tx = not tx.short_timed && leb short_timeout (now - tx.sent_time)

abbrev pub mark : Bool → Transaction → Transaction
mark late tx = if late then record tx { short_timed = true } else tx

abbrev pub tick_one : ℕ → ℕ → ℕ → Transaction → Ticked → Ticked
tick_one short_timeout timeout now tx rest =
    let late = is_short short_timeout now tx in
    let tx' = mark late tx in
    let is_expired = leb timeout (now - tx.sent_time) in
    record {
      left = if is_expired then rest.left else tx' ∷ rest.left;
      short_timed = if late then tx' ∷ rest.short_timed else rest.short_timed;
      expired = if is_expired then tx' ∷ rest.expired else rest.expired;
    }

unfoldable pub tick_all : ℕ → ℕ → ℕ → List Transaction → Ticked
tick_all short_timeout timeout now [] = record { left = []; short_timed = []; expired = [] }
tick_all short_timeout timeout now (tx ∷ txs) =
    tick_one short_timeout timeout now tx (tick_all short_timeout timeout now txs)

unfoldable pub tick : ℕ → RpcManager → RpcManager × Ticked
unfolding tick_all
tick now m =
    let t = tick_all m.short_timeout m.timeout now m.transactions in
    (record m { transactions = t.left }, t)
