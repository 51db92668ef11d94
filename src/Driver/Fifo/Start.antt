-- ===== src/Driver/Fifo/Start.antt =====
-- START empties the queue.
use native.Mathlib.Nat.{mod-lt, mod-eq_of_lt}
use phantom_fpga_final_embed.Base.{◌-◌, ◌%◌, ◌≡◌, ◌<◌, ◌∙◌, true, arith}
use phantom_fpga_final_embed.Driver.State.{Dev}
use phantom_fpga_final_embed.Driver.Control.{begin_streaming}
use phantom_fpga_final_embed.Driver.Inv.{Inv, Same-IsAllocated, configured-IsAllocated}
use phantom_fpga_final_embed.Driver.Inv.Control.{begin_lem, length-fresh_ring}
use phantom_fpga_final_embed.Driver.Fifo.{Represents}
use phantom_fpga_final_embed.Driver.Restart.{none_completed}

-- After START on a configured device the queue is empty, counted from 0: the device may complete all
-- descriptors but one, and no descriptor is completed yet.
pub start-Represents : (d : Dev) → Inv d → d.configured ≡ true → Represents 0 0 (begin_streaming d)
start-Represents d v conf =
    let a = configured-IsAllocated v conf in
    let b = begin_lem d a in
    let count : (begin_streaming d).desc_count ≡ d.desc_count = ground (arith, b) in
    let small : d.desc_count - 1 < d.desc_count = omega (arith, a.count_ge) in
    record {
      allocated =
          Same-IsAllocated {d = d} (ground (arith, b, length-fresh_ring d)) a
            (ground (arith, b, a.count_ge));
      consumer = ground (
        arith,
        b,
        a.count_ge,
        mod-eq_of_lt {n = 0} {m = d.desc_count} (omega (arith, a.count_ge)),
      );
      head = ground (arith, b, mod-eq_of_lt {n = d.desc_count - 1} {m = d.desc_count} small);
      order = omega arith;
      window = omega arith;
      completed = λ i lo hi.
          none_completed d a (i % (begin_streaming d).desc_count) (
            omega (
              arith,
              count,
              mod-lt i {m = (begin_streaming d).desc_count} (omega (arith, count, a.count_ge)),
            ))
          ∙ ground arith;
    }
