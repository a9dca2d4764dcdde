-- ===== src/Procs/Clearing.antt =====
-- `ClearProcsWithTag`: which handlers it removes.
use ipc_portable.Common.{ℕ, ◌≡◌, Option, none, some, List, All, if◌then◌else◌}
use ipc_portable.RawString.Order.{Denotes}
use ipc_portable.Procs.{CallInfoImpl, CallData, InvokeRemote, Procs, has_tag, erase_tagged}
use ipc_portable.Procs.Table.{Entry, lookup, Above, IsTable}
use ipc_portable.Procs.Objects.{Backed, handler_at}

abbrev pub unless_tagged : ℕ → Option InvokeRemote → Option InvokeRemote
unless_tagged tag o = if has_tag tag o then none else o

module _ (heap : List CallInfoImpl) (tag : ℕ) where
  record Erased (es : List (Entry CallData)) : Type 0 where
    result : List (Entry CallData)
    erased : erase_tagged heap tag es ≡ some result
    is_table : IsTable result
    backed : All (Backed heap) result
    above : (a b : List ℕ) → Above a b es → Above a b result
    looked_up :
        (n p : List ℕ)
        → handler_at heap (lookup n p result) ≡ unless_tagged tag (handler_at heap (lookup n p es))

  module _ (e : Entry CallData) (es : List (Entry CallData)) (a b : List ℕ) (d : Denotes e.key a b)
      (first : Above a b es) (k : Backed heap e) (ih : Erased es) where
    abbrev object : CallInfoImpl
    object = k.0
