-- ===== src/Datalink.antt =====
-- The data link layer of stack/xcan_stack.c, between the devices and the router.
use xcan_router.Prelude.Int.{ℤ, pos}
use xcan_router.Memory.{Ptr, Cmd, pure}
use xcan_router.Router.{router_receive}

unfoldable pub datalink_receive : Ptr → Cmd ℤ
unfolding router_receive
datalink_receive f = router_receive f

unfoldable pub datalink_send : Ptr → Cmd ℤ
datalink_send f = pure (pos 0)
