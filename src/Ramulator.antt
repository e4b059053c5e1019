-- ===== src/Ramulator.antt =====
-- src/ramulator_wrapper.h and src/ramulator_wrapper.cc: the memory as a component, between a channel
-- of read tasks and a channel of answers. The memory itself is the library deps/ramulator: its
-- `send` and `tick` are parameters. The statistics that the destructor prints, and the table of
-- DRAM standards by which the constructor makes the memory, are left out.
pub mod Order
pub mod Balance
pub mod Outgoing
use near_mem_nsg.Base.{
  ℕ, ◌^◌, Bool, false, not, Option, none, some, List, [], ◌∷◌, ◌++◌, ltb, ◌==◌, if◌then◌else◌,
  ◌>>=◌, inc64, sub64,
}
use near_mem_nsg.Struct.{MemReadTask}
use near_mem_nsg.TaskQueue.{Channel, full, push, empty, get, pop}

-- `ramulator::Request::Type`, of which the wrapper makes two.
pub data RequestType : Type 0 where
  read write : RequestType

pub record Request : Type 0 where
  pub addr : ℕ
  pub type : RequestType

-- `ramulator::MemoryBase`: `send` answers whether it took the request, and `tick` advances by one
-- memory cycle and yields the requests whose callback it calls, in order.
pub record MemoryBase (M : Type 0) : Type 0 where
  pub send : Request → M → Bool × M
  pub tick : M → List Request × M

pub record Wrapper (M : Type 0) : Type 0 where
  pub total_requests_read : ℕ
  pub total_requests_write : ℕ
  pub cycle_in_memory : ℕ
  pub outgoing_reqs : ℕ
  pub temp_receive_queue : List ℕ
  pub mem : M

-- The wrapper with its two channels.
pub record State (M : Type 0) : Type 0 where
  pub wrapper : Wrapper M
  pub in_queue : Channel MemReadTask
  pub out_queue : Channel MemReadTask

-- The read addresses that wait to be answered, after a callback.
receive : RequestType → ℕ → List ℕ → List ℕ
receive read addr q = q ++ addr ∷ []
receive write addr q = q

-- `req.is_read ? READ : WRITE`.
pub request : MemReadTask → Request
request t = record { addr = t.addr; type = if t.is_read then read else write }

-- `MemReadTask{addr, 0, 0, 0, 0}`.
abbrev pub answer : ℕ → MemReadTask
answer addr = record {
  addr = addr;
  is_read = false;
  qe_name = 0;
  node_id = 0;
  is_edge_table = false;
}

module _ {M : Type 0} where
  -- `call_back`: the counter must not go below 0 as a `long long`. A write is only counted.
  unfoldable pub call_back : Request → Wrapper M → Option (Wrapper M)
  unfolding receive
  call_back req w =
      let left = sub64 w.outgoing_reqs 1 in
      if ltb left (2 ^ 63)
      then some (record w {
        outgoing_reqs = left;
        temp_receive_queue = receive req.type req.addr w.temp_receive_queue;
      })
      else none

  unfoldable pub call_backs : List Request → Wrapper M → Option (Wrapper M)
  call_backs [] w = some w
  call_backs (r ∷ rs) w = call_back r w >>= call_backs rs

  pub have_outgoing : Wrapper M → Bool
  have_outgoing w = not (w.outgoing_reqs == 0)

  -- `tick`.
  unfoldable pub tick : MemoryBase M → Wrapper M → Option (Wrapper M)
  tick m w =
      let (done, mem) = m.tick w.mem in
      call_backs done (record w { cycle_in_memory = inc64 w.cycle_in_memory; mem = mem })

  -- A request that the memory took.
  count_request : Bool → Wrapper M → Wrapper M
  count_request is_read w =
      let counted =
        if is_read
        then record w { total_requests_read = inc64 w.total_requests_read }
        else record w { total_requests_write = inc64 w.total_requests_write } in
      record counted { outgoing_reqs = inc64 w.outgoing_reqs }

  -- The head of the incoming channel is offered to the memory, and leaves the channel if it is
  -- taken.
  offer : MemoryBase M → State M → MemReadTask → Option (State M)
  unfolding request count_request
  offer m s req =
      let (taken, mem) = m.send (request req) s.wrapper.mem in
      let w = record s.wrapper { mem = mem } in
      if taken
      then (pop s.in_queue >>= λ (_, q).
          some (record s { wrapper = count_request req.is_read w; in_queue = q }))
      else some (record s { wrapper = w })

  unfoldable pub send_next : MemoryBase M → State M → Option (State M)
  unfolding offer
  send_next m s = if empty s.in_queue then some s else (get s.in_queue >>= offer m s)

  answer_front : State M → List ℕ → Option (State M)
  answer_front s [] = some s
  answer_front s (addr ∷ rest) = push (answer addr) s.out_queue >>= λ q.
      some (record s { wrapper = record s.wrapper { temp_receive_queue = rest }; out_queue = q })

  unfoldable pub answer_next : State M → Option (State M)
  unfolding answer_front
  answer_next s = if full s.out_queue then some s else answer_front s s.wrapper.temp_receive_queue

  unfoldable pub do_cycle : MemoryBase M → State M → Option (Bool × State M)
  do_cycle m s = do
    s' ← send_next m s
    s'' ← answer_next s'
    w ← tick m s''.wrapper
    some (not (empty s.in_queue), record s'' { wrapper = w })
