-- ===== src/Wiring.antt =====
-- nftcp.rs, `setup_delayed_proxy` around the closure: the tasks that it gives to the scheduler, the
-- way of the packets through them, and what it tells the run time. Streams, groups and the
-- scheduler are e2d2's and the installation of a task netfcts'; they are the argument `Streams`.
pub mod Laws
use proxyengine.Base.{
  ℕ, ◌<◌, ◌%◌, ◌≡◌, Bool, true, false, ◌&&◌, ◌||◌, Option, none, some, List, [], ◌∷◌, ◌++◌, ◌==◌,
  Result, ok, ◌>>=◌, ◌>>◌, assert, unwrap,
}
use proxyengine.Base.Words.{u16_mod}

-- A pipeline's two devices, and its two queues: the one to which the closure sends its extra
-- packets, and that of the timer ticks.
pub data Device : Type 0 where
  pci kni : Device

pub data Queue : Type 0 where
  extra_packets timer_ticks : Queue

-- Where a packet comes from: a device, a queue, or a group of the closure.
pub data Origin : Type 0 where
  from_device : Device → Origin
  from_queue : Queue → Origin
  grouped : ℕ → Origin

abbrev pub same_device : Device → Device → Bool
same_device pci pci = true
same_device kni kni = true
same_device _ _ = false

abbrev pub is_device : Device → Origin → Bool
is_device d (from_device e) = same_device d e
is_device d _ = false

abbrev pub same_queue : Queue → Queue → Bool
same_queue extra_packets extra_packets = true
same_queue timer_ticks timer_ticks = true
same_queue _ _ = false

abbrev pub is_queue : Queue → Origin → Bool
is_queue q (from_queue r) = same_queue q r
is_queue q _ = false

abbrev pub is_group : ℕ → Origin → Bool
is_group g (grouped h) = g == h
is_group g _ = false

-- e2d2's batches and its scheduler, and netfcts::tasks; a Uuid is a number.
pub record Streams : Type 1 where
  pub Stream : Type 0
  pub Task : Type 0
  pub Groups : Type 0
  pub Scheduler : Type 0
  pub receive_batch : Device → Stream
  pub consumer : Queue → Stream
  pub set_urgent : Stream → Stream
  pub merge_auto : Stream → Stream → Stream
  pub drop : Stream → Stream
  pub send : Stream → Device → Task
  pub tick_generator : Queue → Task
  pub group_by : ℕ → Stream → Scheduler → ℕ → Groups × Scheduler
  pub get_group : Groups → ℕ → Option Stream
  pub add_runnable : Scheduler → ℕ → Task → Scheduler
  pub install_task : Scheduler → Task → ℕ × Scheduler
  -- The Uuid of the forwarding task, and that of the groups.
  pub uuid : ℕ
  pub uuid_l4groupby : ℕ
  -- What a scheduler runs under a Uuid. An installation takes a new one.
  pub task : Scheduler → ℕ → Option Task
  pub add_task : (s : Scheduler) (t : Task) → task (add_runnable s uuid t) uuid ≡ some t
  pub installed_task :
      (s : Scheduler) (t : Task) → task (install_task s t).1 (install_task s t).0 ≡ some t
  pub install_keeps :
      (s : Scheduler) (t : Task) (i : ℕ) (old : Task)
      → task s i ≡ some old
      → task (install_task s t).1 i ≡ some old
  pub group_keeps :
      (n : ℕ) (b : Stream) (s : Scheduler) (id i : ℕ) (old : Task)
      → task s i ≡ some old
      → task (group_by n b s id).1 i ≡ some old
  -- The packets of which origin a stream carries, the closure is called on, and a task sends.
  pub carries : Stream → Origin → Bool
  pub grouping : Groups → Origin → Bool
  pub sends : Task → Origin → Device → Bool
  pub carries_device : (d : Device) (o : Origin) → carries (receive_batch d) o ≡ is_device d o
  pub carries_queue : (q : Queue) (o : Origin) → carries (consumer q) o ≡ is_queue q o
  pub carries_urgent : (b : Stream) (o : Origin) → carries (set_urgent b) o ≡ carries b o
  pub carries_merged :
      (b c : Stream) (o : Origin) → carries (merge_auto b c) o ≡ (carries b o || carries c o)
  pub carries_dropped : (b : Stream) (o : Origin) → carries (drop b) o ≡ false
  pub grouping_lem :
      (n : ℕ) (b : Stream) (s : Scheduler) (id : ℕ) (o : Origin)
      → grouping (group_by n b s id).0 o ≡ carries b o
  pub group_of :
      (n : ℕ) (b : Stream) (s : Scheduler) (id g : ℕ)
      → g < n
      → (c : Stream) × (get_group (group_by n b s id).0 g ≡ some c)
        × ((o : Origin) → carries c o ≡ is_group g o)
  pub sends_lem :
      (b : Stream) (d e : Device) (o : Origin)
      → sends (send b d) o e ≡ (carries b o && same_device d e)

-- netfcts::comm
pub record PipelineId : Type 0 where
  pub core : ℕ
  pub port_id : ℕ
  pub rxq : ℕ

pub data TaskType : Type 0 where
  tick_generator_task pipe2kni pipe2pci bypass_pipe : TaskType

pub data MessageFrom : Type 0 where
  channel : PipelineId → MessageFrom
  task_message : PipelineId → ℕ → TaskType → MessageFrom

unfoldable pub pipeline_id : ℕ → ℕ → ℕ → PipelineId
pipeline_id core port_id rxq = record {
  core = core % u16_mod;
  port_id = port_id % u16_mod;
  rxq = rxq;
}

module _ ⦃E : Streams⦄ where
  open E use {Stream, Scheduler}

  -- The scheduler, and what the run time has been told.
  pub record Wired : Type 0 where
    pub sched : Scheduler
    pub told : List MessageFrom

  module _ (takes : MessageFrom → Bool) (id : PipelineId) where
    -- `tx.send(..).unwrap()`
    abbrev pub tell : MessageFrom → Wired → Result Wired
    tell m w = do assert (takes m); ok (record w { told = w.told ++ m ∷ [] })

    -- `install_task`, and the message about it.
    abbrev pub install : TaskType → E.Task → Wired → Result Wired
    install type t w =
        let done = E.install_task w.sched t in
        tell (task_message id done.0 type) (record w { sched = done.1 })

    -- The channel back to this pipeline, and the frames that go from the kernel to the network.
    unfoldable pub connect : Wired → Result Wired
    connect w = do
      w₁ ← tell (channel id) w
      ok (record w₁ { sched = E.add_runnable w₁.sched E.uuid (E.send (E.receive_batch kni) pci) })

    unfoldable pub install_ticks : Wired → Result (Stream × Wired)
    install_ticks w = do
      w₁ ← install tick_generator_task (E.tick_generator timer_ticks) w
      ok (E.merge_auto (E.set_urgent (E.consumer timer_ticks)) (E.receive_batch pci), w₁)

    -- The closure's groups: 0 is dropped, 1 goes to the network, 2 to the kernel.
    unfoldable pub install_groups : Stream × Wired → Result Wired
    install_groups (l2_input_stream, w) = do
      let grouped_by = E.group_by 3 l2_input_stream w.sched E.uuid_l4groupby
      to_kni ← unwrap (E.get_group grouped_by.0 2)
      l4pciflow ← unwrap (E.get_group grouped_by.0 1)
      group0 ← unwrap (E.get_group grouped_by.0 0)
      let l4dumpflow = E.drop group0
      w₁ ← install pipe2kni (E.send to_kni kni) (record w { sched = grouped_by.1 })
      w₂ ← install pipe2pci (E.send (E.merge_auto l4pciflow l4dumpflow) pci) w₁
      install bypass_pipe (E.send (E.consumer extra_packets) pci) w₂

    unfoldable pub wire : Scheduler → Result Wired
    wire sched = do
      w ← connect (record { sched = sched; told = [] })
      ticks ← install_ticks w
      install_groups ticks
