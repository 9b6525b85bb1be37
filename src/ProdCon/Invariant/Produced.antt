-- ===== src/ProdCon/Invariant/Produced.antt =====
-- Assignment_2/f22/main.cpp: a step of the thread that reads the commands, and the sums over the threads.
use cmput.Common.{
  ℕ, ◌≤◌, ◌≡◌, inl, inr, false, List, [], ◌∷◌, ◌++◌, ◌==◌, leb, length, length-append, arith,
  Bool-cases,
}
use cmput.Text.{Bytes}
use cmput.ProdCon.{take_line, read_line, produce}
use cmput.ProdCon.State.{
  Shared, ProducerAt, starting, reading, finishing, closing, ended, pushing, parked, Producer,
  Consumer,
}
use cmput.ProdCon.Log.{second}
use cmput.ProdCon.Counts.{InvOf, Leads, leads, stays, breaks, if-Leads}

module _ (m : ℕ) (cs : List Consumer) where
  abbrev pub Produced : Producer × Shared → Type 0
  Produced (p, g) = InvOf m g p.at cs

  take_line-Inv :
      (time : Bytes) (first c : ℕ) (command : Bytes) (g : Shared)
      → InvOf m g reading cs
      → InvOf m (take_line time first c command g).1 (take_line time first c command g).0 cs
  unfolding take_line
  take_line-Inv time first c command g v = elim (Bool-cases (first == b'T')) [
    | inl e ↦ rw e (record {
      fixed = v.fixed;
      bound = v.bound;
      work = omega (arith, v.work);
      received = v.received;
      completed = v.completed;
    })
    | inr e ↦ elim (Bool-cases (first == b'S')) [
      | inl f ↦
          rw (e, f)
            (record {
              fixed = v.fixed;
              bound = v.bound;
              work = v.work;
              received = v.received;
              completed = v.completed;
            })
      | inr f ↦ rw (e, f) v
    ]
  ]

  read_line-Leads :
      (time command : Bytes) (rest : List Bytes) (g : Shared)
      → InvOf m g reading cs
      → Leads Produced (read_line time command rest g)
  unfolding read_line second
  read_line-Leads time [] rest g v = breaks
  read_line-Leads time (first ∷ []) rest g v = leads (take_line-Inv time first 0 (first ∷ []) g v)
  read_line-Leads time (first ∷ c ∷ command) rest g v =
      leads (take_line-Inv time first c (first ∷ c ∷ command) g v)

  pub produce-Leads :
      (time : Bytes) (lines : List Bytes) (at : ProducerAt) (g : Shared)
      → InvOf m g at cs
      → Leads Produced (produce time lines at g)
  unfolding produce
  produce-Leads time lines starting g v = leads (record {
    fixed = v.fixed;
    bound = v.bound;
    work = v.work;
    received = v.received;
    completed = v.completed;
  })
  produce-Leads time [] reading g v = leads (record {
    fixed = v.fixed;
    bound = v.bound;
    work = v.work;
    received = v.received;
    completed = v.completed;
  })
  produce-Leads time (command ∷ rest) reading g v = read_line-Leads time command rest g v
  produce-Leads time lines (pushing command) g v =
      if-Leads (leb g.max_buffer (length g.buffer))
        (λ e. leads (record {
          fixed = v.fixed;
          bound = v.bound;
          work = v.work;
          received = v.received;
          completed = v.completed;
        }))
        λ e. leads (record {
          fixed = v.fixed;
          bound = pushed_bound e;
          work = omega (arith, v.work, length-append g.buffer (command ∷ []));
          received = v.received;
          completed = v.completed;
        })
    where
      pushed_bound :
          leb g.max_buffer (length g.buffer) ≡ false → length (g.buffer ++ command ∷ []) ≤ m
      pushed_bound e = ground (arith, v.fixed, length-append g.buffer (command ∷ []))
  produce-Leads time lines (parked command) g v = stays
  produce-Leads time lines finishing g v = leads (record {
    fixed = v.fixed;
    bound = v.bound;
    work = v.work;
    received = v.received;
    completed = v.completed;
  })
  produce-Leads time lines closing g v = leads (record {
    fixed = v.fixed;
    bound = v.bound;
    work = v.work;
    received = v.received;
    completed = v.completed;
  })
  produce-Leads time lines ended g v = stays
