-- ===== src/Kernel/Image.antt =====
-- The load of an executable: what stands in the page of the new process.
use zbiggie.Prelude.{
  ℕ, ◌+◌, ◌-◌, ◌≤◌, ◌<◌, ◌≡◌, ◌≢◌, ◌∙◌, refl, ap, arith, true, false, some, ◌==◌, ◌&&◌, leb, ltb,
  if◌then◌else◌, Bytes, load32, update,
}
use zbiggie.Text.{strncpy}
use zbiggie.Block.{memcpy}
use zbiggie.Fs.{
  Volume, File, ops_regular, num_inode, inode_length, read_dentry_by_name, ftype_regular,
}
use zbiggie.Fs.Data.{file_byte}
use zbiggie.Devices.{Ports}
use zbiggie.Kernel.{Kernel, with_memory, user_memory, get_current_pcb, setup_new_process}
use zbiggie.Kernel.Files.{kopen, kread}
use zbiggie.Kernel.Exec.{Locals, load_addr, parse_input, kload_exec_to_mem}
use zbiggie.Kernel.Birth.{setup_new_process_lem}
use zbiggie.Kernel.Opens.{IsFile, kopen-regular}
use zbiggie.Kernel.Pieces.{
  Lowest, setup_new_process-SameStore, found_regular, load32-same, status_zero, old_page, page_of,
  other_page, header_read, image_read, image_entry,
}

-- An executable, which fits the page from the load address on.
pub record IsProgram (v : Volume) (exec : Bytes) (i inode : ℕ) : Type 0 where
  pub file : IsFile v exec 0 i inode
  pub there : inode < num_inode v
  pub header : 28 ≤ inode_length v inode
  pub fits : inode_length v inode ≤ 3899392
  pub magic : load32 (file_byte v inode) 0 ≡ 0x464c457f

-- The kernel behind the load: the memory, and the command line in the block.
abbrev with_image : Bytes → Bytes → Kernel → Kernel
with_image out args k =
    let pcb = get_current_pcb k in
    record (with_memory out k) {
      pcbs =
          update k.pcbs k.current_process
            (record pcb { cmdstring = strncpy pcb.cmdstring 0 args 0 128 });
    }

module _ (inb : Ports → ℕ → ℕ) (interrupts : Kernel → Kernel) (v : Locals) where
  kload_exec_to_mem-run :
      (input exec args buf out : Bytes) (f f1 f2 : File) (n1 n2 : ℕ) (k k3 : Kernel)
      → parse_input input v.exec v.args 128 ≡ some (exec, args)
      → ((read_dentry_by_name k.volume exec 0 v.d).1.ftype == ftype_regular) ≡ true
      → kopen inb v.d v.f exec 0 k ≡ some (0, f, k)
      → kread interrupts v.d f v.buf 0 28 k ≡ some (n1, f1, buf, k)
      → load32 buf 0 ≡ 0x464c457f
      → setup_new_process k ≡ (0, k3)
      → kread interrupts v.d f1
          (memcpy (user_memory k3) load_addr buf 0 28)
          (load_addr + 28)
          3899392
          k3
        ≡ some (n2, f2, out, k3)
      → kload_exec_to_mem inb interrupts v input k
        ≡ some (load32 out (load_addr + 24), with_image out args k3)
  unfolding kload_exec_to_mem
  kload_exec_to_mem-run input exec args buf out f f1 f2 n1 n2 k k3 parsed type opened head magic
        born rest =
      let status : (setup_new_process k).0 ≡ 0 = ap (λ (x : ℕ × Kernel). x.0) born in
      let after : (setup_new_process k).1 ≡ k3 = ap (λ (x : ℕ × Kernel). x.1) born in
      rw (parsed, type, opened, head, magic, status, after, rest) refl

  -- If the first word of the command line names an executable of 28 to 3,899,392 bytes and the number
  -- `pid` is the lowest free one, the load ends and gives the entry point that stands at byte 24 of the
  -- file. Process `pid` then runs, its page holds the whole file from the load address on and otherwise
  -- what it held before, and no other page has changed.
  pub kload_exec_to_mem_lem :
      (input exec args : Bytes) (i inode pid : ℕ) (k : Kernel)
      → parse_input input v.exec v.args 128 ≡ some (exec, args)
      → IsProgram k.volume exec i inode
      → Lowest k pid
      → (k' : Kernel) × (kload_exec_to_mem inb interrupts v input k
          ≡ some (load32 (file_byte k.volume inode) 24, k'))
        × (k'.current_process ≡ pid)
        × ((a : ℕ)
            → k'.pages pid a ≡ (
                if leb load_addr a && ltb a (load_addr + inode_length k.volume inode)
                then file_byte k.volume inode (a - load_addr)
                else k.pages pid a))
        × ((q : ℕ) → q ≢ pid → k'.pages q ≡ k.pages q)
  kload_exec_to_mem_lem input exec args i inode pid k parsed p l =
      let len = inode_length k.volume inode in
      let source = file_byte k.volume inode in
      let f : File = record v.f { pos = 0; inode = inode; optable = ops_regular } in
      let (n1, f1, buf, run1, table, number, start, head) =
        header_read interrupts v.d k.volume inode p.there p.header (omega arith) f v.buf k refl refl
          refl refl in
      let magic : load32 buf 0 ≡ load32 source 0 =
        load32-same buf source 0 0 (λ j lt. head (0 + j) (omega arith)) in
      let k3 = (setup_new_process k).1 in
      let s = setup_new_process-SameStore k pid l in
      let (status, runs, present, parent, in0, out1, used, others) =
        setup_new_process_lem k pid l.lo l.hi l.free l.taken in
      let (n2, f2, out, run2, image) =
        image_read interrupts v.d k.volume inode p.there p.header (omega arith) f1 buf
          (user_memory k3) k3 s.volume table number start head in
      let word = image_entry len source (user_memory k3) out p.header image in
      (
        with_image out args k3,
        kload_exec_to_mem-run input exec args buf out f f1 f2 n1 n2 k k3 parsed
              (found_regular k.volume exec 0 i inode v.d p.file)
              (kopen-regular inb v.d v.f exec 0 i inode k p.file) run1 (magic ∙ p.magic)
              (status_zero (setup_new_process k) status) run2
            ∙ ap (λ (x : ℕ). some (x, with_image out args k3)) word,
        runs,
        λ a.
            page_of out k3.pages k3.current_process pid a runs
            ∙ old_page (out a) (leb load_addr a && ltb a (load_addr + len)) (source (a - load_addr))
                k3.pages k.pages k3.current_process pid a s.pages runs (image a),
        λ q ne.
            (let off : (q == k3.current_process) ≡ false = rw runs (ground (arith, ne)) in
              other_page out k3.pages k3.current_process q off
              ∙ ap (λ (x : ℕ → Bytes). x q) s.pages),
      )
