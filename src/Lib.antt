-- ===== src/Lib.antt =====
-- JOS-vmx: a small kernel for the x86 that hosts a virtual machine by VT-x.
--
-- The program and its model, part by part:
--   * boot/main.c, inc/elf.h: Boot has readsect, readseg and bootmain. The disk is a parameter, memory
--     a function from an address to a byte. The loops of readseg run on fuel, a round for each sector
--     or byte and one for the last test.
--   * kern/pmap.c, kern/pmap.h, inc/queue.h, the types of inc/memlayout.h: physical pages and page
--     tables. Pmap holds the state: the array `pages` with its list links and 16-bit counts, the head
--     of `page_free_list`, `boot_alloc`'s next free address, the memory as frames of 1024 entries,
--     and a log of `invlpg`. Pmap.FreeList has the list macros, Pmap.Alloc page_clear to page_decref,
--     Pmap.Boot nvram_read, i386_mem_detect, boot_alloc and page_init, Pmap.Table pgdir_walk,
--     page_insert, page_lookup, page_remove, tlb_invalidate and check_va2pa. A panic is `none`,
--     `-E_NO_MEM` a result. The abstract view is the list of free pages (Pmap.Alloc.Chain) and the
--     map from an address to a page (Pmap.Table.Insert). Pmap.Table uses the allocator through the
--     laws of Pmap.Alloc. Pmap.Segment has boot_pgdir_walk, boot_map_segment and boot_mem_init, and
--     Pmap.Check the test boot_mem_check that boot_mem_init runs; their loops run on fuel, a round
--     for each page or entry and two more being enough. Pmap.Segment.Memory runs page_init of
--     Pmap.Boot behind boot_mem_init, as i386_init does, and Pmap.Selftest has page_check.
--   * inc/mmu.h: Mmu has the address macros and page flags, Mmu.Segment the segment and gate
--     descriptors.
--   * lib/string.c: Str, Str.Copy, Str.Move and Str.Number. An array is the list of its bytes from the
--     pointer on, and reading or writing past its end is `none`; memset, memcpy and memmove work on
--     one memory, so that ranges may overlap.
--   * lib/printfmt.c, kern/printf.c: Fmt has vprintfmt and its helpers, Fmt.Buffer vsnprintf and
--     vcprintf. What `putch` is given is a list. The loop of printnum runs on fuel, 64 for a 64-bit
--     number in a base of at least 2; the loop of vprintfmt runs on fuel, more than the length of the
--     format being enough.
--   * kern/console.c: Console has the input queue with cons_intr, cons_getc and getchar, Console.Cga
--     the display, Console.Kbd the scan codes. A device is what its routine returns before -1; port
--     output is logged. Console.Port has the serial and the parallel port and get_cursor_loc over
--     devices that are a parameter, and runs the log of the display on them.
--   * lib/readline.c, kern/monitor.c: Monitor.Readline, Monitor.Parse and Monitor.Command. The lines
--     come from readline; their first word is looked up with strcmp of Str. The loop of monitor stops
--     at matrix, whose command panics in vmx_on, and at backtrace where a parameter says that
--     mon_backtrace does not return.
--   * kern/kdebug.c, inc/stab.h: Kdebug has stab_binsearch, whose loop runs on fuel, twice the length
--     of the region and two more being enough, and Kdebug.Eip debuginfo_eip. The tables of symbols and
--     strings are parameters, and the search of Kdebug is called with the fuel that suffices.
--   * kern/trap.c: Trap has trapname, the gates and the task segment of idt_init, and the dispatch,
--     which runs the monitor of Monitor.Command on the lines that are typed.
--   * kern/monitor.c: Monitor.Backtrace has mon_backtrace, which calls debuginfo_eip of Kdebug.Eip;
--     the stack is a function, and the loop runs on fuel, a round for each frame and one more.
--   * hvm/vt_ept.c, inc/hvm/vt_ept.h: Hvm.Ept has the entries and the walk of the extended page
--     tables, in the memory of Pmap, and the calls of ept_create_table, on a fuel of 2049.
--   * hvm/vt.c, hvm/vt_regs.c, hvm/vt_init.c, inc/hvm/constants.h: Hvm, Hvm.Regs, Hvm.Segment,
--     Hvm.Exit, Hvm.Guest, Hvm.Host and, for the fields of the VMCS, Hvm.Vmcs. The
--     VMCS is a function from the encoding of a field; the instructions `cpuid` and `lar`, and the
--     run of the guest between two exits, are parameters. The loop of vt_main is on fuel, as the
--     guest decides how long it runs; Hvm.Exit.Loop relates it to the guest's exits.
--   * kern/init.c: Init has _panic and _warn, and the calls of i386_init that set up memory. What a
--     part prints is a list of the calls of cprintf (Fmt.Call) that it makes.
-- Base has the numbers, tests, lists and bit operations that the parts share. A register or a field
-- of w bits is a natural number with its wrap-around written out.
--
-- Not modelled: assembly (boot/boot.S, kern/entry.S, kern/trapentry.S, hvm/asm_vmop.S) and inline
-- assembly; the loads of control and segment registers in boot_mem_init; vmx_on,
-- vmcs_setup, has_vmx, set_vmcs_ctl and the parts of the extended page tables that end in a panic
-- where their bodies are missing.
pub mod Base
pub mod Boot
pub mod Console
pub mod Fmt
pub mod Hvm
pub mod Init
pub mod Kdebug
pub mod Mmu
pub mod Monitor
pub mod Pmap
pub mod Str
pub mod Trap
