-- ===== src/Mvcp/Buffer/Contract.antt =====
-- hw5/src/200104004085_buffer.c: all operations of the buffer against the queue that it promises.
use cse_344_homeworks.Prelude.{◌≡◌, Bool}
use cse_344_homeworks.Mvcp.Buffer.{
  FileDescriptor, Buffer, buffer_add, buffer_remove, buffer_set_done,
}
use cse_344_homeworks.Mvcp.Buffer.Fifo
use cse_344_homeworks.Mvcp.Buffer.Fifo.{Fifo}
use cse_344_homeworks.Mvcp.Buffer.Refine.{
  Represents, buffer_add_refines, buffer_remove_refines, buffer_set_done_refines,
}
use cse_344_homeworks.Mvcp.Buffer.Destroy.{
  buffer_destroy, buffer_destroy_hw4, closes, close_both, close_any, buffer_destroy_lem,
}

-- A buffer that represents a queue: under either value of the global `done`, `buffer_add` waits,
-- drops or stores exactly as `Fifo.put` does at the capacity `size`; `buffer_remove` waits or returns
-- exactly what `Fifo.get` does, the oldest descriptor or the sentinel; `buffer_set_done` closes the
-- queue; each leaves a well-formed buffer that represents the queue that is left. And
-- `buffer_destroy` closes the descriptors of each pair in the queue, in its order and once, in hw5
-- those that are not -1 and in hw4 all.
pub buffer_refines :
    {b : Buffer} {q : Fifo} (stop : Bool) (fd : FileDescriptor)
    → Represents b q
    → (let (s, b') = buffer_add stop b fd in
        let (s', q') = Fifo.put b.size stop q fd in (s ≡ s') × Represents b' q')
      × (let (o, b') = buffer_remove stop b in
          let (o', q') = Fifo.get stop q in (o ≡ o') × Represents b' q')
      × Represents (buffer_set_done b) (Fifo.close q)
      × (buffer_destroy b ≡ closes close_both q.items)
      × (buffer_destroy_hw4 b ≡ closes close_any q.items)
buffer_refines stop fd r =
    let (hw5, hw4) = buffer_destroy_lem r in
    (
      buffer_add_refines stop fd r,
      buffer_remove_refines stop r,
      buffer_set_done_refines r,
      hw5,
      hw4,
    )
