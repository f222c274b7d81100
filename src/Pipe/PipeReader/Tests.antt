-- ===== src/Pipe/PipeReader/Tests.antt =====
-- Runs of the ring and of the pipe on small inputs.
use httpadapter.Common.{min, ◌≡◌, refl, false, none, some, List, [], ◌∷◌, ◌++◌, arith, length}
use httpadapter.Common.Bytes.{Bytes}
use httpadapter.Pipe.ReadWriter.{ReadWriter, ReadWriterError}
use httpadapter.Pipe.ReadWriter
use httpadapter.Pipe.ReadWriter.Contents.{IsValid, contents}
use httpadapter.Pipe.ReadWriter.Write.{write_fits}
use httpadapter.Pipe.ReadWriter.Read.{read_takes}
use httpadapter.Pipe.PipeReader.System
use httpadapter.Pipe.PipeReader.{new_pipe_reader, read_start, read_check}
use httpadapter.Pipe.PipeReader.System.{Event, reads, writes, resumes, initial, run}
use httpadapter.Pipe.PipeReader.Invariant.{sleeps_only_if_idle, bytes_in_order}

-- Three bytes, of which two stand around the end of the buffer.
abbrev ring : ReadWriter
ring = record { buffer = 7 ∷ 0 ∷ 0 ∷ 5 ∷ 6 ∷ []; offset = 3; size = 3 }

write_fits_example :
    let (n, e, r') = ReadWriter.write ring (8 ∷ 9 ∷ []) in
    (n ≡ 2)
    × (e ≡ none)
    × (contents r' ≡ contents ring ++ 8 ∷ 9 ∷ [])
    × IsValid r'
    × (length r'.buffer ≡ length ring.buffer)
write_fits_example = write_fits ring (8 ∷ 9 ∷ []) (omega arith) (omega arith)

read_takes_example :
    (bs : Bytes) × (r' : ReadWriter) × (ReadWriter.read ring 2 ≡ some (bs, none, r'))
    × (contents ring ≡ bs ++ contents r')
    × (length bs ≡ min 2 ring.size)
    × IsValid r'
    × (length r'.buffer ≡ length ring.buffer)
read_takes_example = read_takes ring 2 (omega arith) (omega arith)

-- Two readers sleep, a writer wakes one of them, and this one takes a byte.
abbrev events : List Event
events = reads 1 ∷ reads 2 ∷ writes (4 ∷ []) ∷ resumes 0 ∷ reads 3 ∷ []

abbrev sleepers : List Event
sleepers = reads 1 ∷ reads 2 ∷ []

sleeps_only_if_idle_example :
    let s = run (initial (new_pipe_reader 4)) sleepers in
    (s.pipe.rw.size ≡ 0) × (s.pipe.closed ≡ false)
unfolding run System.step System.attempted read_start read_check new_pipe_reader
    ReadWriter.new_read_writer
sleeps_only_if_idle_example = sleeps_only_if_idle 4 sleepers refl (omega arith)

bytes_in_order_example :
    let s = run (initial (new_pipe_reader 4)) (writes (4 ∷ 5 ∷ 6 ∷ []) ∷ reads 2 ∷ events) in
    s.accepted ≡ s.taken ++ contents s.pipe.rw
bytes_in_order_example = bytes_in_order 4 (writes (4 ∷ 5 ∷ 6 ∷ []) ∷ reads 2 ∷ events)
