-- ===== src/Lib.antt =====
-- A verification library for the Quin kernel template: the C code of kernel/, translated function by
-- function, with the theorems that make its parts correct.
--
-- The parts, and the files that model them:
--   Base, Base/*       machine words, lists, bit operations; kernel/include/kernel.h's types
--   Memory, Align      byte-addressed memory; align_up and align_down of kernel/include/kernel.h
--   Strings            kernel/lib/string.c
--   Bitmap             kernel/lib/bitmap.c
--   Boot               kernel/include/boot_info.h and the accessors of
--                      kernel/arch/x86_64/boot/limine_requests.c
--   Panic              the outcome of code that may call panic (kernel/arch/x86_64/cpu/panic.c), and
--                      in Panic/Report what panic prints, over Log's drivers and Printf
--   Pmm                kernel/mm/pmm.c, over Bitmap and Strings, its bitmap in memory; Pmm/Memmap is
--                      what the memory map says, Pmm/Marking the loops of pmm_init
--   Vmm                kernel/arch/x86_64/mm/vmm.c, over Pmm, its page tables in memory; Vmm/Tree is
--                      the CPU's walk of the tables, with the rights of all levels, and Vmm/Tables
--                      the frames that they are in
--   Ring3              ring3_demo_thread of kernel/main.c, over Vmm; its log lines are left out
--   Heap               kernel/mm/heap.c, a store of block headers, its region registered with Vmm
--   Thread             kernel/sched/thread.c and kernel/arch/x86_64/cpu/context_switch.S, over Heap,
--                      Vmm and Sched
--   Sched              kernel/sched/sched.c, the ready ring
--   Spinlock           kernel/sched/spinlock.c, on one CPU and between CPUs
--   Framebuffer        kernel/drivers/framebuffer/framebuffer.c, over Memory and Strings
--   Keyboard           kernel/drivers/keyboard/keyboard.c
--   Printf             kernel/lib/printf.c, over any callback
--   Acpi, Acpi/Madt    kernel/acpi/acpi.c and kernel/acpi/madt.c, over Memory
--   Descriptors        kernel/arch/x86_64/cpu/gdt.c and idt.c
--   Isr                kernel/arch/x86_64/cpu/isr.c, with Vmm's page-fault handler
--   Ports              the accesses of kernel/arch/x86_64/cpu/io.h, and mapped device registers
--   Serial             kernel/drivers/serial/serial.c, over Ports
--   Log                kernel/lib/log.c, over Serial, Framebuffer and Printf
--   Lapic, Ioapic      kernel/arch/x86_64/cpu/lapic.c and lapic_timer.c, and ioapic.c, over Ports
--                      and Vmm
--   Syscall            kernel/arch/x86_64/cpu/syscall.c, over Vmm, Descriptors and Log
--   Timer              kernel/drivers/timer/timer.c's tick handler, over Sched
-- A component's own file has its state as a record of its static variables and one function per C
-- function, named alike; the files below it have its theorems, and Tests its runs.
--
-- Numbers are natural numbers; a wrap-around of a 64-bit, 32-bit, 16-bit or 8-bit integer is written
-- out as u64, u32, u16 or u8. A pointer is its address, and NULL is 0. Three numbers are left without
-- a bound: a width in a format that does not fit an int, and a pixel of more than 32 bits, which C
-- leaves undefined, and the count of ksnprintf past 2^64 characters.
--
-- Fuel: strlen and strcmp take the rounds that they may run. The spin loops of spinlock.c take fuel,
-- since only another CPU ends them. The search of kmalloc has heap_size / header_size rounds and one
-- more: each block of the heap has a header. The loop of madt_parse has as many rounds as the table
-- has bytes, and the one of kvprintf as many as the format has characters, since each round takes one
-- at least; Printf/Fuel and Acpi/Madt are about those two. Printf/Pieces is what the formats of panic.c
-- print, and Panic/Text the report line by line.
--
-- The page tables that the bootloader leaves are taken to have the entries above the lowest level
-- writable, open to the user and executable, as ensure_next_level makes them.
--
-- Devices: what an access to a port or to a mapped register does is a parameter, and what a driver
-- relies on of its device is an interface of the file that uses it: Uart of Serial/Wire, IoapicDevice
-- of Ioapic/Entries, LapicDevice of Lapic/Registers. The loops that wait for a device take fuel.
--
-- Not modelled: the translation cache, so invlpg does nothing; the font's table (a parameter of the
-- console); the registration of handlers by timer_init and keyboard_init; the assembly stubs of
-- interrupts and system calls; the rest of kernel/main.c.
pub mod Base
pub mod Memory
pub mod Strings
pub mod Align
pub mod Bitmap
pub mod Boot
pub mod Panic
pub mod Pmm
pub mod Keyboard
pub mod Spinlock
pub mod Sched
pub mod Ring3
pub mod Vmm
pub mod Heap
pub mod Framebuffer
pub mod Thread
pub mod Printf
pub mod Acpi
pub mod Descriptors
pub mod Isr
pub mod Ports
pub mod Serial
pub mod Log
pub mod Ioapic
pub mod Lapic
pub mod Syscall
pub mod Timer
