-- ===== src/Router.antt =====
-- stack/xcan_router.c: the routing table, and what the router does with a received frame.
-- `route_frame` and `xcan_router_loop` do not compile and are left out.
use xcan_router.Prelude.{ℕ, Option, some, List}
use xcan_router.Prelude.Int.{ℤ, pos}
use xcan_router.Memory.{Ptr, Cmd, pure}

-- `xcan_routing_entry`: the identifier and the interfaces that the array has.
pub record RoutingEntry : Type 0 where
  pub can_id : ℕ
  pub interfaces : List ℕ

-- `xcan_routing_table`
abbrev pub RoutingTable : Type 0
RoutingTable = List RoutingEntry

-- It stores the table in `m_tbl`, and has no return statement: `result` is what the caller reads.
unfoldable pub router_init : RoutingTable → ℤ → Option RoutingTable × ℤ
router_init table result = (some table, result)

-- It prints a line, and keeps neither the frame nor a reference to it.
unfoldable pub router_receive : Ptr → Cmd ℤ
router_receive f = pure (pos 0)
