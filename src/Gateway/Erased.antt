-- ===== src/Gateway/Erased.antt =====
-- The functions that PDU_Task calls do the same to the gateway whether they print or not.
use xcan_router.Prelude.{
  arith, ℕ, zero, suc, ◌≡◌, refl, sym, subst, inl, inr, false, Option, List, [], ◌∷◌, ◌==◌,
  Bool-cases, Option-cases, length, get_elem?,
}
use xcan_router.Run.{Run, done, crash, spin, ◌>>◌, then_run, IfDone, IfDone-bind}
use xcan_router.Gateway.Ecu.{Ecu, Pdu, clear_bit, type_data_bit, protocol_can, protocol_lin}
use xcan_router.Gateway.State.{State, Cmd, load_ecu, read_bytes}
use xcan_router.Gateway.Can.{can_send_frame}
use xcan_router.Gateway.Send.{ecu_send, ecu_send_pdu, lin_send_frame}
use xcan_router.Gateway.Tables.{pdu_descriptors}
use xcan_router.Gateway.Routing.{pdu_discard, send_to_all, route_data, route_entry}
use xcan_router.Gateway.Printing.{
  beside, behind, on_gateway, on_console, printing_send, printing_send_to, printing_send_pdu,
  printing_send_to_all, printing_route_entry, printing_route_data, printing_pdu,
}
use xcan_router.Console.Serial.{Uart, print_error}
use xcan_router.Console.Frames.{SendStatus, report_sent, print_pdu}
use xcan_router.Console.Sends.{then_print, message, send_reported}

-- Where the code with the console ends, the code without it ends the same way.
abbrev pub Erases : {G L A : Type 0} → Run G A → Run (G × L) A → Type 0
Erases o p = IfDone (λ a z. o ≡ done a z.0) p

beside-Erases : {G L A : Type 0} (o : Run G A) (t : L) → Erases o (beside o t)
beside-Erases (done a s) t = refl
beside-Erases crash t = tt
beside-Erases spin t = tt

then_print-Erases :
    {G L : Type 0} (o : Run G (Unit {0})) (p : Run L (Unit {0})) → Erases o (then_print o p)
then_print-Erases (done a s) (done b t) = refl
then_print-Erases (done a s) crash = tt
then_print-Erases (done a s) spin = tt
then_print-Erases crash p = tt
then_print-Erases spin p = tt

Erases-bind :
    {G L A B : Type 0} (o : Run G A) (p : Run (G × L) A) (k : A → G → Run G B)
    (k' : A → G × L → Run (G × L) B)
    → Erases o p
    → ((a : A) (z : G × L) → Erases (k a z.0) (k' a z))
    → Erases (then_run o k) (then_run p k')
Erases-bind o (done a z) k k' e next =
    subst (λ (o : Run _ _). Erases (then_run o k) (k' a z)) (sym e) (next a z)
Erases-bind o crash k k' e next = tt
Erases-bind o spin k k' e next = tt

behind_text : {G L : Type 0} (s : G) (o : Run L (Unit {0})) → Erases (done tt s) (behind s o)
behind_text s (done a t) = refl
behind_text s crash = tt
behind_text s spin = tt

module _ (Queue : Type 0) (uart : Uart) (status : ℕ → Option SendStatus) where
  send-Erases :
      (instance_no id : ℕ) (bytes : List ℕ) (z : State Queue × uart.Line)
      → Erases
          (can_send_frame instance_no id bytes z.0)
          (printing_send Queue uart status instance_no id bytes z)
  unfolding printing_send send_reported
  send-Erases instance_no id bytes (s, t) =
      then_print-Erases (can_send_frame instance_no id bytes s)
        (report_sent uart instance_no (message id bytes) (status (length s.bus)) t)

  pub gateway-Erases :
      {A : Type 0} (c : Cmd Queue A) (z : State Queue × uart.Line)
      → Erases (c z.0) (on_gateway Queue uart status c z)
  gateway-Erases c (s, t) = beside-Erases (c s) t

  -- The state of the gateway is `s` if the code ends.
  abbrev pub Keeps : State Queue → Run (State Queue × uart.Line) (Unit {0}) → Type 0
  Keeps s o = IfDone (λ _ z. z.0 ≡ s) o

  behind-Keeps :
      (s s' : State Queue) (o : Run uart.Line (Unit {0})) → s' ≡ s → Keeps s (behind s' o)
  behind-Keeps s s' (done a t) e = e
  behind-Keeps s s' crash e = tt
  behind-Keeps s s' spin e = tt

  reads-keep :
      (p len : ℕ) (s : State Queue) (t : uart.Line)
      → IfDone (λ _ (z : State Queue × uart.Line). z.0 ≡ s) (beside (read_bytes p len s) t)
  reads-keep p len s t = grind arith

  pub print-Keeps :
      (x : Pdu) (s : State Queue) (t : uart.Line)
      → Keeps s (printing_pdu Queue uart status x (s, t))
  unfolding printing_pdu
  print-Keeps x s t =
      IfDone-bind _ _ (beside (read_bytes x.payload x.length s) t)
        (reads-keep x.payload x.length s t)
        λ bytes (s', t') e. behind-Keeps s s' (print_pdu uart x.id x.length bytes false t') e

  send_to-Erases :
      (e : Ecu) (x : Pdu) (z : State Queue × uart.Line)
      → Erases (ecu_send e x z.0) (printing_send_to Queue uart status e x z)
  unfolding printing_send_to ecu_send
  send_to-Erases e x z = elim (Bool-cases (e.protocol == protocol_can)) [
    | inl can ↦ rw (can) (
        Erases-bind (read_bytes x.payload x.length z.0)
          (on_gateway Queue uart status (read_bytes x.payload x.length) z)
          (can_send_frame e.instance_no x.id) (printing_send Queue uart status e.instance_no x.id)
          (gateway-Erases (read_bytes x.payload x.length) z)
          λ bytes z'. send-Erases e.instance_no x.id bytes z')
    | inr other ↦ elim (Bool-cases (e.protocol == protocol_lin)) [
      | inl lin ↦
          rw (other, lin) (gateway-Erases (lin_send_frame e.instance_no x.id x.payload x.length) z)
      | inr neither ↦ rw (other, neither) refl
    ]
  ]

  send_pdu-Erases :
      (d : ℕ) (x : Pdu) (z : State Queue × uart.Line)
      → Erases (ecu_send_pdu d x z.0) (printing_send_pdu Queue uart status d x z)
  unfolding printing_send_pdu ecu_send_pdu
  send_pdu-Erases d x z =
      Erases-bind (load_ecu d z.0) (on_gateway Queue uart status (load_ecu d) z) (λ e. ecu_send e x)
        (λ e. printing_send_to Queue uart status e x) (gateway-Erases (load_ecu d) z)
        λ e z'. send_to-Erases e x z'

  all-Erases :
      (count : ℕ) (dest : List ℕ) (x : Pdu) (z : State Queue × uart.Line)
      → Erases
          (send_to_all count dest x z.0)
          (printing_send_to_all Queue uart status count dest x z)
  unfolding printing_send_to_all send_to_all
  all-Erases zero dest x z = refl
  all-Erases (suc count) [] x z = tt
  all-Erases (suc count) (d ∷ dest) x z =
      Erases-bind (ecu_send_pdu d x z.0) (printing_send_pdu Queue uart status d x z)
        (λ _. send_to_all count dest x) (λ _. printing_send_to_all Queue uart status count dest x)
        (send_pdu-Erases d x z) λ _ z'. all-Erases count dest x z'

  entry-Erases :
      (k : ℕ) (x : Pdu) (z : State Queue × uart.Line)
      → Erases (route_entry k x z.0) (printing_route_entry Queue uart status k x z)
  entry-Erases k x z = elim (Option-cases (get_elem? pdu_descriptors k)) [
    | inl e ↦ rw (printing_route_entry, e) tt
    | inr (desc, e) ↦
        let plain : route_entry k x z.0
            ≡ (send_to_all desc.dest_count desc.dest x >> pdu_discard x) z.0 =
          rw (route_entry, e) refl in
        subst
          (λ (o : Run (State Queue) (Unit {0})).
            Erases o (printing_route_entry Queue uart status k x z))
          (sym plain)
          (rw (printing_route_entry, e)
            (Erases-bind (send_to_all desc.dest_count desc.dest x z.0)
              (printing_send_to_all Queue uart status desc.dest_count desc.dest x z)
              (λ _. pdu_discard x) (λ _. on_gateway Queue uart status (pdu_discard x))
              (all-Erases desc.dest_count desc.dest x z) λ _ z'. gateway-Erases (pdu_discard x) z'))
  ]

  pub data-Erases :
      (x : Pdu) (z : State Queue × uart.Line)
      → Erases (route_data x z.0) (printing_route_data Queue uart status x z)
  unfolding printing_route_data route_data
  data-Erases x z = entry-Erases (clear_bit x.id type_data_bit) x z

  text_behind :
      (o : Run (State Queue) (Unit {0})) (t : uart.Line) (text : List ℕ)
      → Erases o (then_run (beside o t) (λ _. on_console Queue uart status (print_error uart text)))
  text_behind (done a s) t text = behind_text s (print_error uart text t)
  text_behind crash t text = tt
  text_behind spin t text = tt

  -- A text behind the end of the code.
  pub text-Keeps :
      (c : Cmd Queue (Unit {0})) (text : List ℕ) (z : State Queue × uart.Line)
      → Erases (c z.0) (
          (on_gateway Queue uart status c >> on_console Queue uart status (print_error uart text))
            z)
  text-Keeps c text (s, t) = text_behind (c s) t text
