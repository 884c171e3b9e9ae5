-- ===== src/Lib.antt =====
-- pve-anti-detection: a QEMU and a KVM whose guests look like real machines. This library models the
-- parts of the repository with logic of their own: the SMBIOS tables that QEMU hands to the guest
-- (smbios.c, smbios.h), and in KVM the time-stamp counter that the guest is shown (vmx.c, svm.c,
-- x86.c), the clock that goes with it, its accesses to model-specific and control registers, the
-- exceptions and interrupts on their way to it, its pending page faults (x86.c), its address space
-- identifiers (svm.c) and the registers switched around it (vmx.c). QEMU builds the tables before the guest runs, KVM handles the guest's exits while it
-- runs. The parts of KVM keep their own fields of a vCPU, so each has a record `Vcpu` of its own.
--
-- Prelude: native numbers, machine words as `u8` to `u64`, texts as lists of character codes, lists,
-- and the result `Outcome` of code that may end with a value (`done`), abort or fail an assertion
-- (`aborted`), or read outside an array (`stray`).
--
-- Tsc: `handle_rdtsc` and `handle_rdtsc_interception`. The static variables are the record `Clock`;
-- `tick` is what one exit does to them, `run` a sequence of exits. Bounds is about one exit, Reads
-- about sequences.
--
-- GuestTsc: the counter of a guest by its ratio and offset: `kvm_scale_tsc`, `kvm_read_l1_tsc`,
-- `kvm_vcpu_write_tsc_offset` and their like, with Offsets on what the guest reads. TimeScale is
-- `kvm_get_time_scale`, and Halts its loops; Frequency is `kvm_set_tsc_khz`, which uses both, and
-- Accuracy is about the frequency that the guest gets. Sync is `kvm_synchronize_tsc` with what it
-- calls. Below Sync/Generations, Machine has a machine with its vCPUs and the steps that it can make,
-- Step is about one synchronisation, Reachable about all machines that can be reached, and Clock about
-- the master clock. Master is the copy of the host's time and `pvclock_update_vm_gtod_copy`, with Raw on
-- the time that goes with a counter. Page is `kvm_setup_guest_pvclock` as the stores that it makes:
-- Contents is about the page after all of them, Readers about a guest that reads in between, with
-- Ordered and Snapshot below it. Update is `kvm_guest_time_update`, which uses all of these: Steps has one
-- update in parts, CatchUp the counter after it, Shared what several vCPUs show.
--
-- AsyncPf: the hash table of the asynchronous page faults that are pending, `kvm_add_async_pf_gfn`,
-- `kvm_find_async_pf_gfn` and `kvm_del_async_pf_gfn`. Cyclic has distances around the table, Lookup what a
-- table in order is and how it is searched, Insert and Delete the two changes; below Delete, Hole is
-- about a table with a hole that is being filled, and Move about one round of filling.
--
-- Svm: how svm.c gives out address space identifiers, `pre_svm_run`, `new_asid` and
-- `svm_flush_tlb_asid`. Machine has all vCPUs and processors of a host with their steps, Entry is about
-- one entry into a guest, Tracked and Kept about what the steps keep, Unique about the identifiers.
--
-- Vmx: the lists of registers that vmx.c has switched on entry and exit, `add_atomic_switch_msr` and
-- `clear_atomic_switch_msr`. Lists has a list as a map, and below it the three ways to change one;
-- Switch is about one call, Sequences about several.
--
-- Msr: `kvm_msr_allowed`, `__kvm_set_msr`, `__kvm_get_msr` and what stands between them and
-- `kvm_emulate_rdmsr` and `kvm_emulate_wrmsr`, which keep a copy of IA32_DEBUGCTL, the static
-- `data_1d9`. Install is `kvm_vm_ioctl_set_msr_filter`. Filter is about the filter, Policy about a
-- filter as user space states it and the code then applies it, Emulate about the two instructions. The
-- names are those of x86.c, without leading underscores.
--
-- Control: `kvm_set_cr0`, `kvm_set_cr4`, `load_pdptrs` and what follows a change; Paging is `kvm_set_cr3` and
-- `kvm_lmsw`. The registers are set as vmx.c and svm.c do in `vmx_set_cr0`, `svm_set_cr0` and their like.
-- Consistent is about one write of CR0 or CR4, Writes about sequences. Debug is `kvm_set_dr` and `kvm_get_dr`.
--
-- Exception: the two slots of a vCPU for an exception, and `kvm_deliver_exception_payload`. Raise is
-- `kvm_multiple_exception` with the functions that call it; below it, Paths has its branches and its
-- recursion, Escalation the exceptions that meet. Inject is `kvm_check_and_inject_events` and
-- `process_nmi`; below it, Single is about what is handed to the backend, Settled about what is left.
-- UserSpace has the exception in the ioctls, RoundTrip its way from one vCPU to another. Lifecycle puts
-- all of these together as the steps of a vCPU.
--
-- Smbios: the variables of smbios.c are the record `Smbios` (State). Layout has the packed structures
-- of smbios.h with the encoding of their fields, Table the union of them. Options and Entry are the
-- `-smbios` option: `smbios_entry_add` with a function for each case of its `switch`. Select is
-- `smbios_skip_table`, the two checks and the defaults. Build has `smbios_build_type_N_table` for
-- every N, each with the structure `type_N_structure` that it fills in; Build/Sizes, Build/Handles
-- and Build/Lengths are about what a reader of these structures finds. Tables is
-- `smbios_get_tables_ep` and `smbios_get_tables`, which call the builders in the order of the source;
-- below it, Modules and Areas are about the memory modules, Sockets about the structures of type 4,
-- Verdict about the end of a run, Anchors about the entry points in memory, Retry about the second
-- attempt.
-- Below Entry, Bitmaps and Blobs are about what the options leave in the variables, OemStrings
-- about strings from files. An accepted option flows from Entry through `Smbios` to
-- Build, and the structures built flow through `Tables` to the checks at the end.
--
-- Parameters: what the repository does not hold. `Qemu` (Smbios/Qemu) has the option parser, files,
-- PCI devices, `error_setg` and the macros of smbios_build.h. `Kernel` (Msr, and another in GuestTsc),
-- `Abi` (Msr/Install), `Host` (GuestTsc/Sync), `Backend` (Exception, and another in Control) and `Events` (Exception/Inject)
-- have the vendors' operations, the functions and constants of the kernel's headers, and what the host
-- tells; the reading of the host's counter is an argument. So are `Cpu` (GuestTsc/Update), the order in
-- which `memcpy` stores, `hash_32`, `pre_sev_run` and `Caps` (Vmx). What a theorem needs of them is named in
-- Smbios/Assumptions, in `IsHost` (GuestTsc/Frequency/Accuracy), and `IsEvents`
-- (Exception/Inject/Single), and modules of tests have one of each of which it holds. A local variable
-- that C does not initialise is an argument.
--
-- Bounds: most loops of the source run over lists or to a count that is known before, so they are
-- recursion on the list or the count; the loop over a file's reads is recursion on the list of what
-- they return. The two loops of `kvm_get_time_scale` run on fuel, 66 rounds each: the first halves a
-- number of 64 bits, the second doubles one of 32 bits and halves one of 63. `kvm_multiple_exception`
-- calls itself once at most, so the call is written out. The machines of GuestTsc/Sync make fewer than
-- 2 ^ 64 steps, the range of the generation, and those of Svm fewer than 2 ^ 62, so that the generation
-- neither wraps around nor meets one that was counted down below 0. The loops of AsyncPf run on fuel, one
-- round for each slot: a free slot ends them, and the scan comes one slot nearer to it in each round. Numbers wrap around where the source's type does; words
-- that are only taken apart by masks are functions from the number of a bit.
--
-- Not modelled: the other code of KVM that the repository takes over unchanged, as XCR0
-- and the run loop; the requests to the vCPUs around an update of the master clock, and the wall clock;
-- the sequence locks of the host's own copies, which the kernel's headers have; the hash table of pending
-- faults when it is full; a processor of Svm that is switched off and on again; in the ioctls for events, what is not about the exception;
-- races of several vCPUs on static variables; the freeing of memory; log messages and warnings;
-- scripts, patches of other programs, ACPI tables and firmware images.
pub mod Prelude
pub mod Tsc
pub mod GuestTsc
pub mod Msr
pub mod AsyncPf
pub mod Svm
pub mod Vmx
pub mod Control
pub mod Exception
pub mod Smbios
