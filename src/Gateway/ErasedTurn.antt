-- ===== src/Gateway/ErasedTurn.antt =====
-- A turn of PDU_Task does the same to the gateway whether it prints or not.
use xcan_router.Run.{Run}
use xcan_router.Gateway.Rtos.{Rtos}
use xcan_router.Gateway.State.{State}
