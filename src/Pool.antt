-- ===== src/Pool.antt =====
-- back/services/db_connector/source/connection/source/connection_pool.cpp: connections that are kept
-- open, under a quota. The mutex makes each operation one step.
pub mod Quota
pub mod Resize
pub mod Connecting
use warehouse_accounting_sys.Base.{
  ℕ, zero, suc, ◌+◌, ◌-◌, ◌%◌, ◌^◌, Bool, true, false, Option, none, some, List, [], ◌∷◌, ◌++◌,
  length, ltb, leb, if◌then◌else◌,
}
use warehouse_accounting_sys.Base.Int.{ℤ, pos, negsuc, ◌-ℤ◌, ◌+ℤ◌, leb_ℤ, to_uint32, to_int32}
use warehouse_accounting_sys.Exec.{Outcome, ok, throws, runtime_error}

-- `m_freeConnections`, `m_toDelete`, `m_toCreate`, `m_busy` and `m_connectionAttempts`. `C` is what
-- libpqxx gives for a connection.
pub record Pool (C : Type 0) : Type 0 where
  pub free : List C
  pub to_delete : ℕ
  pub to_create : ℕ
  pub busy : ℕ
  pub attempts : ℕ

module _ {C : Type 0} where
  -- `vector::back()` with `pop_back()`.
  abbrev pub last_of : C → List C → C
  last_of x [] = x
  last_of x (y ∷ ys) = last_of y ys

  abbrev pub init_of : C → List C → List C
  init_of x [] = []
  init_of x (y ∷ ys) = x ∷ init_of y ys

  -- `resize` to no more than the length there is.
  abbrev pub take : ℕ → List C → List C
  take zero xs = []
  take (suc n) [] = []
  take (suc n) (x ∷ xs) = x ∷ take n xs

  -- `CreateConnection`: the loop over the attempts, of which there is always one; `connect k` is
  -- what the server answers to attempt `k`.
  unfoldable pub create_from : (ℕ → Outcome C) → ℕ → ℕ → ℕ → Option (Outcome C)
  create_from connect attempts zero attempt = none
  create_from connect attempts (suc fuel) attempt = elim (connect attempt) [
    | ok c ↦ some (ok c)
    | throws e ↦ elim (ltb (suc attempt) attempts) [
      | true ↦ create_from connect attempts fuel (suc attempt)
      | false ↦ some (throws runtime_error)
    ]
  ]

  abbrev uninitialized : Outcome C → Pool C → Outcome C × Pool C
  uninitialized (ok c) s = (ok c, record s { to_create = s.to_create - 1 })
  uninitialized (throws e) s = (throws e, s)

  abbrev over_quota : Outcome C → Pool C → Outcome C × Pool C
  over_quota (ok c) s = (ok c, record s { to_delete = (s.to_delete + 1) % 2 ^ 32 })
  over_quota (throws e) s = (throws e, s)

  abbrev pub take_free : Outcome C → List C → Pool C → Outcome C × Pool C
  take_free created (x ∷ xs) s = (ok (last_of x xs), record s { free = init_of x xs })
  take_free created [] s =
      if ltb 0 s.to_create then uninitialized created s else over_quota created s

  -- `GetConnection`; `created` is what `CreateConnection` answers, where it is called.
  unfoldable pub get_connection : Outcome C → Pool C → Outcome C × Pool C
  get_connection created s = take_free created s.free s

  -- `ReturnConnection`, which the proxy's destructor calls.
  unfoldable pub return_connection : C → Pool C → Pool C
  return_connection c s =
      if ltb 0 s.to_delete
      then record s { to_delete = s.to_delete - 1 }
      else record s { free = s.free ++ c ∷ [] }

  -- The last part of `SetConnectionsCount`: cut what is free, then what is taken.
  abbrev pub cut_free : ℤ → Pool C → Pool C
  cut_free diff s =
      let size = length s.free in
      let rest = to_int32 (diff -ℤ pos size) in
      let kept = record s {
        free = if leb_ℤ (pos 0) rest then [] else take (to_uint32 (pos size -ℤ diff)) s.free;
      } in
      if leb_ℤ rest (pos 0)
      then kept
      else record kept { to_delete = to_uint32 (pos s.to_delete +ℤ rest) }

  abbrev pub cut : ℤ → Pool C → Pool C
  cut diff s =
      let rest = to_int32 (diff -ℤ pos s.to_create) in
      let kept = record s {
        to_create = if leb_ℤ (pos 0) rest then 0 else to_uint32 (pos s.to_create -ℤ diff);
      } in
      if leb_ℤ rest (pos 0) then kept else cut_free rest kept

  -- `SetConnectionsCount`, from the difference to what there is.
  abbrev pub resize_by : ℤ → Pool C → Pool C
  resize_by diff s =
      if leb_ℤ diff (pos 0)
      then (if leb_ℤ (pos 0) diff then s else cut (pos 0 -ℤ diff) s)
      else record s { to_create = to_uint32 (pos s.to_create +ℤ diff) }

  -- `SetConnectionsCount`
  pub set_connections_count : ℕ → Pool C → Pool C
  set_connections_count count s =
      resize_by (to_int32 (pos count -ℤ pos (length s.free + s.busy + s.to_create))) s

  abbrev pub reset : Bool → Pool C → Pool C
  reset false s = s
  reset true s = record s { free = []; to_create = (s.to_create + length s.free) % 2 ^ 32 }

  abbrev pub resize : Option ℕ → Pool C → Pool C
  resize none s = s
  resize (some n) s = set_connections_count n s

  abbrev pub retime : Option ℕ → Pool C → Pool C
  retime none s = s
  retime (some k) s = record s { attempts = k }

  -- `SetSettings`, told whether the connection's options changed.
  pub set_settings : Bool → Option ℕ → Option ℕ → Pool C → Pool C
  set_settings changed count attempts s = retime attempts (resize count (reset changed s))
