-- ===== src/Wiring/Laws.antt =====
-- Where each packet goes once a pipeline is set up, and what the run time knows of its tasks.
use proxyengine.Base.{
  ℕ, ◌≡◌, refl, ap, ◌∙◌, Bool, true, false, ◌&&◌, ◌||◌, some, [], ◌∷◌, ◌++◌, arith, ok,
}
use proxyengine.Wiring.{
  Device, pci, kni, extra_packets, timer_ticks, Origin, same_device, is_device, is_queue, is_group,
  Streams, PipelineId, tick_generator_task, pipe2kni, pipe2pci, bypass_pipe, MessageFrom, channel,
  task_message, Wired, tell, connect, install_ticks, install_groups, wire,
}

module _ ⦃E : Streams⦄ (takes : MessageFrom → Bool) (id : PipelineId)
    (all : (m : MessageFrom) → takes m ≡ true) where
  tell_lem :
      (m : MessageFrom) (w : Wired) → tell takes id m w ≡ ok (record w { told = w.told ++ m ∷ [] })
  tell_lem m w = rw (all m) refl

  -- The wiring after its parts, as the scheduler is given the tasks.
  abbrev sched₁ : E.Scheduler → E.Scheduler
  sched₁ s = E.add_runnable s E.uuid (E.send (E.receive_batch kni) pci)

  abbrev ticks : E.Scheduler → ℕ × E.Scheduler
  ticks s = E.install_task (sched₁ s) (E.tick_generator timer_ticks)

  abbrev input : E.Stream
  input = E.merge_auto (E.set_urgent (E.consumer timer_ticks)) (E.receive_batch pci)

  abbrev groups : E.Scheduler → E.Groups × E.Scheduler
  groups s = E.group_by 3 input (ticks s).1 E.uuid_l4groupby

  module _ (s : E.Scheduler) (g0 g1 g2 : E.Stream) (at0 : E.get_group (groups s).0 0 ≡ some g0)
      (at1 : E.get_group (groups s).0 1 ≡ some g1)
      (at2 : E.get_group (groups s).0 2 ≡ some g2) where
    abbrev to_kni : ℕ × E.Scheduler
    to_kni = E.install_task (groups s).1 (E.send g2 kni)

    abbrev to_pci : ℕ × E.Scheduler
    to_pci = E.install_task to_kni.1 (E.send (E.merge_auto g1 (E.drop g0)) pci)

    abbrev bypass : ℕ × E.Scheduler
    bypass = E.install_task to_pci.1 (E.send (E.consumer extra_packets) pci)

    wire_lem :
        wire takes id s
        ≡ ok (record {
          sched = bypass.1;
          told =
              channel id
              ∷ task_message id (ticks s).0 tick_generator_task
              ∷ task_message id to_kni.0 pipe2kni
              ∷ task_message id to_pci.0 pipe2pci
              ∷ task_message id bypass.0 bypass_pipe
              ∷ [];
        })
    unfolding wire connect install_ticks install_groups
    wire_lem =
        rw (all (channel id), all (task_message id (ticks s).0 tick_generator_task))
          (rw (at0, at1, at2)
            (rw (all (task_message id to_kni.0 pipe2kni)) (
              rw (all (task_message id to_pci.0 pipe2pci))
                (rw (all (task_message id bypass.0 bypass_pipe)) refl))))

module _ ⦃E : Streams⦄ where
  -- The scheduler's tasks, which of them the run time knows by which Uuid, and what each sends. The
  -- closure is called on the ticks and on what the network sends; two of the tasks send packets of
  -- one of its groups each, and of no other origin, to one of the devices.
  pub record Connected (id : PipelineId) (w : Wired) : Type 0 where
    pub closure : E.Groups
    pub called_on :
        (o : Origin) → E.grouping closure o ≡ (is_queue timer_ticks o || is_device pci o)
    pub tick_id : ℕ
    pub kni_id : ℕ
    pub pci_id : ℕ
    pub bypass_id : ℕ
    pub told :
        w.told
        ≡ channel id
          ∷ task_message id tick_id tick_generator_task
          ∷ task_message id kni_id pipe2kni
          ∷ task_message id pci_id pipe2pci
          ∷ task_message id bypass_id bypass_pipe
          ∷ []
    pub forward : E.Task
    pub to_kni : E.Task
    pub to_pci : E.Task
    pub bypass : E.Task
    pub forward_task : E.task w.sched E.uuid ≡ some forward
    pub tick_task : E.task w.sched tick_id ≡ some (E.tick_generator timer_ticks)
    pub kni_task : E.task w.sched kni_id ≡ some to_kni
    pub pci_task : E.task w.sched pci_id ≡ some to_pci
    pub bypass_task : E.task w.sched bypass_id ≡ some bypass
    pub forwards :
        (o : Origin) (d : Device) → E.sends forward o d ≡ (is_device kni o && same_device pci d)
    pub bypasses :
        (o : Origin) (d : Device)
        → E.sends bypass o d ≡ (is_queue extra_packets o && same_device pci d)
    pub kni_sends :
        (o : Origin) (d : Device) → E.sends to_kni o d ≡ (is_group 2 o && same_device kni d)
    pub pci_sends :
        (o : Origin) (d : Device) → E.sends to_pci o d ≡ (is_group 1 o && same_device pci d)

  input_lem :
      (o : Origin)
      → E.carries (E.merge_auto (E.set_urgent (E.consumer timer_ticks)) (E.receive_batch pci)) o
        ≡ (is_queue timer_ticks o || is_device pci o)
  input_lem o =
      E.carries_merged _ _ o
      ∙ rw
          (
            E.carries_urgent (E.consumer timer_ticks) o,
            E.carries_queue timer_ticks o,
            E.carries_device pci o,
          )
          refl

  only_group :
      (g0 g1 : E.Stream) (g : ℕ)
      → ((o : Origin) → E.carries g1 o ≡ is_group g o)
      → (o : Origin) → E.carries (E.merge_auto g1 (E.drop g0)) o ≡ is_group g o
  only_group g0 g1 g of1 o =
      E.carries_merged g1 (E.drop g0) o
      ∙ rw (E.carries_dropped g0 o, of1 o) (or_false (is_group g o))
    where
      or_false : (b : Bool) → (b || false) ≡ b
      or_false true = refl
      or_false false = refl

  sends_all :
      (b : E.Stream) (to : Device) (from : Origin → Bool)
      → ((o : Origin) → E.carries b o ≡ from o)
      → (o : Origin) (d : Device) → E.sends (E.send b to) o d ≡ (from o && same_device to d)
  sends_all b to from same o d =
      E.sends_lem b to d o ∙ ap (λ (c : Bool). c && same_device to d) (same o)

  module _ (takes : MessageFrom → Bool) (id : PipelineId) (all : (m : MessageFrom) → takes m ≡ true)
      (s : E.Scheduler) where
    -- If the run time takes every message, the set-up gives the scheduler five tasks, and tells
    -- the run time the channel, and the kind of each of the four that it installs with the Uuid
    -- under which the scheduler runs it. The closure is called on the ticks and on what the
    -- network sends, and on nothing else; one task sends the packets of its group 2, and no
    -- others, to the kernel, one those of its group 1, and no others, to the network; two more
    -- send the kernel's frames and the closure's extra packets to the network.
    pub wire-Connected : (w : Wired) × (wire takes id s ≡ ok w) × Connected id w
    wire-Connected =
        let (g0, at0, of0) =
          E.group_of 3 (input takes id all) (ticks takes id all s).1 E.uuid_l4groupby 0
            (omega arith) in
        let (g1, at1, of1) =
          E.group_of 3 (input takes id all) (ticks takes id all s).1 E.uuid_l4groupby 1
            (omega arith) in
        let (g2, at2, of2) =
          E.group_of 3 (input takes id all) (ticks takes id all s).1 E.uuid_l4groupby 2
            (omega arith) in
        (
          _,
          wire_lem takes id all s g0 g1 g2 at0 at1 at2,
          record {
            closure = (groups takes id all s).0;
            called_on = λ o. E.grouping_lem 3 _ _ E.uuid_l4groupby o ∙ input_lem o;
            tick_id = _;
            kni_id = _;
            pci_id = _;
            bypass_id = _;
            told = refl;
            forward = E.send (E.receive_batch kni) pci;
            to_kni = E.send g2 kni;
            to_pci = E.send (E.merge_auto g1 (E.drop g0)) pci;
            bypass = E.send (E.consumer extra_packets) pci;
            forward_task = E.install_keeps _ _ _ _ (
                E.install_keeps _ _ _ _ (
                  E.install_keeps _ _ _ _
                    (E.group_keeps _ _ _ _ _ _ (E.install_keeps _ _ _ _ (E.add_task _ _)))));
            tick_task = E.install_keeps _ _ _ _ (
                E.install_keeps _ _ _ _
                  (E.install_keeps _ _ _ _ (E.group_keeps _ _ _ _ _ _ (E.installed_task _ _))));
            kni_task = E.install_keeps _ _ _ _ (E.install_keeps _ _ _ _ (E.installed_task _ _));
            pci_task = E.install_keeps _ _ _ _ (E.installed_task _ _);
            bypass_task = E.installed_task _ _;
            forwards = sends_all _ pci (is_device kni) (E.carries_device kni);
            bypasses = sends_all _ pci (is_queue extra_packets) (E.carries_queue extra_packets);
            kni_sends = sends_all g2 kni (is_group 2) of2;
            pci_sends = sends_all _ pci (is_group 1) (only_group g0 g1 1 of1);
          },
        )
