-- ===== src/Console/Ecus.antt =====
-- print_ECUs, CONSOLE_Task and what it prints, of _old/Framework/dbg_console/dbg_console.c.
use xcan_router.Prelude.{
  ℕ, zero, suc, ◌+◌, none, some, List, [], ◌∷◌, ◌++◌, ◌==◌, if◌then◌else◌, get_elem?,
}
use xcan_router.Run.{done, crash, ◌>>=◌, ◌>>◌}
use xcan_router.Gateway.Ecu.{Ecu, protocol_can, protocol_canfd, protocol_lin, protocol_eth}
use xcan_router.Gateway.Tables.{num_of_ecus}
use xcan_router.Console.Text.{codes, esc, decimal}
use xcan_router.Console.Buffer.{sprintf}
use xcan_router.Console.Serial.{Uart, Print, print_string}

-- The names of `ecu_status`, of the protocols and of the byte orders.
unfoldable pub status_name : ℕ → List ℕ
status_name status =
    if status == 1
    then codes "NORMAL  "
    else if status == 2
    then codes "SLEEP   "
    else if status == 3
    then codes "UPDATING"
    else if status == 4
    then codes "CORRUPTED"
    else if status == 5
    then codes "NO RESP  "
    else if status == 6
    then codes "FAULTY   "
    else codes "N/A      "

unfoldable pub protocol_name : ℕ → List ℕ
protocol_name protocol =
    if protocol == protocol_can
    then codes "CAN   "
    else if protocol == protocol_canfd
    then codes "CAN-FD"
    else if protocol == protocol_lin
    then codes "LIN   "
    else if protocol == protocol_eth
    then codes "ETH   "
    else codes "N/A   "

unfoldable pub endian_name : ℕ → List ℕ
endian_name endianness =
    if endianness == 0
    then codes "LITTLE"
    else if endianness == 1
    then codes "BIG   "
    else codes "N/A   "

-- The parts of a line, one after the other.
abbrev pub flat : List (List ℕ) → List ℕ
flat [] = []
flat (x ∷ xs) = x ++ flat xs

-- "\n\r| %d\t| %s    \t| %d\t\t| %s    \t| %d\t\t| %d\t\t| %s\t|"
abbrev pub row_parts : ℕ → Ecu → List (List ℕ)
row_parts i e =
    codes "\n\r| "
    ∷ decimal i
    ∷ codes "\t| "
    ∷ status_name e.status
    ∷ codes "    \t| "
    ∷ decimal e.fw_version
    ∷ codes "\t\t| "
    ∷ protocol_name e.protocol
    ∷ codes "    \t| "
    ∷ decimal e.instance_no
    ∷ codes "\t\t| "
    ∷ decimal e.security
    ∷ codes "\t\t| "
    ∷ endian_name e.endianness
    ∷ codes "\t|"
    ∷ []

unfoldable pub ecu_row : ℕ → Ecu → List ℕ
ecu_row i e = flat (row_parts i e)

abbrev pub rule : List ℕ
rule =
    codes
      "\n\r+-------+---------------+---------------+---------------+---------------+---------------+---------------+"

abbrev pub heading : List ℕ
heading = codes "\n\r| ID\t| Status\t| FW Ver\t| Protocol\t| Interface\t| Security\t| Endian\t|"

module _ (uart : Uart) where
  -- A string literal has a NUL at its end.
  abbrev pub print_literal : List ℕ → Print uart (Unit {0})
  print_literal text = print_string uart (text ++ 0 ∷ [])

  -- The loop of print_ECUs from `i` on, with `left` turns to go.
  unfoldable pub rows_from : ℕ → ℕ → List Ecu → List ℕ → Print uart (Unit {0})
  rows_from i zero ecus buff t = done tt t
  rows_from i (suc left) ecus buff t = elim (get_elem? ecus i) [
    | none ↦ crash
    | some e ↦
        (do
          buff' ← sprintf 0 (ecu_row i e) buff
          print_string uart buff'
          rows_from (i + 1) left ecus buff')
          t
  ]

  unfoldable pub print_ecus : List Ecu → Print uart (Unit {0})
  print_ecus ecus = do
    print_literal rule
    print_literal heading
    print_literal rule
    rows_from 0 num_of_ecus ecus (uart.fresh 100)
    print_literal (rule ++ codes "\n\r")

  -- CONSOLE_Task up to the loop in which it waits.
  unfoldable pub console_task : List Ecu → Print uart (Unit {0})
  console_task ecus = do
    print_literal (esc ∷ codes "[32m" ++ esc ∷ codes "[1m")
    print_literal (codes "\n\r============== GW REFERENCE PLATFORM ===============")
    print_literal (codes "\n\r============ Created by: Sean Farrelly =============")
    print_literal (codes "\n\r====================== V0.1 ========================\n\r")
    print_literal (esc ∷ codes "[0m")
    print_ecus ecus
