-- ===== src/Lib.antt =====
-- A model of project-k, a small kernel for the PC with a library for game ROMs, and what has been
-- proved of it. The program's parts that have a model are drivers of the kernel, in the directory
-- k/, the memory and string functions of libs/libc/, the drawing functions of libs/libk/graphic.c,
-- the tools tools/mkkfs/ and tools/mkksf/ that make the image of a file system and the file of a
-- melody, and the loop of one game.
--
-- How the parts interact. Every driver reaches its device through the port accesses of k/io.h: the
-- `Bus` is the list of all accesses so far, the newest first, and what a device answers to a read is
-- a parameter, `Hardware`, that depends on this history. The interrupt entries in assembly call
-- ISR_handler of k/isr.c, which calls IRQ_handler of k/irq.c for the 16 hardware lines, which asks
-- the controllers of k/pic_8259.c, runs the driver of the line and acknowledges. The tables that lead
-- there are written by k/idt.c and k/gdt.c. The console of k/console.c writes cells and moves the
-- cursor with the functions of k/libvga.c. The drawing library stands on its own: a game draws to its
-- buffer, and hands it over to the kernel. The tools run on the host, on files they read and one they write.
--
-- The files.
--   Base: lists, options, tests, machine words, signed numbers, tables decided by evaluation, laws of
--     bitwise or.
--   Bus: k/io.h. Bus.Traffic: what was written to one port.
--   Pic: k/pic_8259.c (init_PIC_8259, IRQ_set_mask, IRQ_clear_mask, disable_PIC, send_PIC_EOI and the
--     two register reads). Pic.Masks and Pic.Commands: its masks; the chips that hear the commands.
--   Idt: k/idt.c. Idt.Gates: the gates that the processor sees.
--   Interrupts: k/isr.c, k/irq.c and k/isr_init_entries.h. The handlers of drivers are a parameter.
--     Interrupts.Setup and Interrupts.Dispatch: the tables after the start; what an interrupt does, and
--     which lines the controllers have in service behind it.
--   Gdt: k/gdt.c and k/tss.c. Gdt.Segments: the segments that the processor sees.
--   Timer: k/timer.c. Timer.Ready and Timer.Period: no null calls; how often a function is called.
--   Vga, Vga.Draw, Vga.Circle, Vga.Tables, Vga.Modes: k/libvga.c (text cells, cursor, palette; pixels,
--     lines, rectangles; the circle; the tables of registers and colors; the switches of the mode).
--     Vga.Text, Vga.Lines, Vga.Frames, Vga.Registers and Vga.Switch: what the devices, the screen and
--     the memory have after them.
--   Memory, Memory.Init: k/memory.c (the regions and caches; memory_init and cache_new). Memory.Nodes,
--     Memory.FirstFit and Memory.Reserve: the nodes of the caches, the map without its nodes, and the
--     reservation of the first region that is large enough.
--   Graphic, Graphic.Text, Graphic.Glyphs, Graphic.Symbols, Graphic.Bitmaps: libs/libk/graphic.c (pixels,
--     lines, rectangles and images; text and animations; the font; load_image, over any file).
--     Graphic.Rectangles, Graphic.Slopes, Graphic.Letters and Graphic.Loading: the pixels of rectangles,
--     lines, texts and loaded images.
--   Sound: tools/mkksf/mkksf.c and libs/libk/sound.c (load_sound, over any file). Sound.Loading: what was
--     written, loaded.
--   Pong: roms/chichepong/pong.c (game_loop, drawn with Graphic). Pong.Bounds and Pong.Play: the bounds of
--     its numbers; what every frame keeps.
--   Kfs, Kfs.Writer: k/include/k/kfs.h and tools/mkkfs/mkkfs.c. Kfs.Adler: the checksum. Kfs.Reader: how
--     an image is read. Kfs.Lasting, Kfs.Blocks, Kfs.Direct, Kfs.Indirect, Kfs.Contents, Kfs.Files and
--     Kfs.Image: what was written stays; a block, the direct and the indirect ones, a file, the chain of
--     the files and the image, read back.
--   Console, Console.Format: k/console.c (the screen, then itoa and console_printf). Console.Cells,
--     Console.Cursor and Console.Pages: text on the screen, the cursor shown, the saved pages.
--     Console.Reversal, Console.Numerals and Console.Widths: the text of a number, what is printed for a format.
--   Ide, Ide.Reg, Ide.Access, Ide.Sectors: k/ide.c (registers and waits; register numbers of
--     k/include/k/atapi.h; IDE_ATA_access; the requests for sectors). Ide.TaskFile and Ide.Address:
--     the registers of a drive and the address they make. Ide.Wait, Ide.Silence, Ide.Transfer and
--     Ide.Requests: the waits, the writes beside the data port, the transfer, the requests.
--     Ide.Detect and Ide.Identity: init_IDE without its summary, with IDE_read_buffer; what is left of
--     a device's identification.
--   Keyboard: k/keyboard.c. Keyboard.Typing: which character a key types.
--   Mouse, Mouse.Setup: k/mouse.c (the handler; init_mouse). Mouse.Packet: the position, packet by
--     packet.
--   Serial: k/write.c. Serial.Sent: what goes out on the line, and the controller that is set up.
--   Libc, Libc.Compare: the memory and string functions of libs/libc/. Libc.Blocks, Libc.Texts and
--     Libc.Order: blocks and strings of bytes, and when they compare as equal.
--   A module Tests below a component applies its theorems at concrete values and runs definitions.
--
-- Conventions. Numbers are natural numbers; a value that the source keeps in 8, 16 or 32 bits is cut
-- by `u8`, `u16` and `u32` where the source cuts it. Video memory, memory and the tables of the
-- processor are functions of the index. An access behind an array, a call through a null pointer and
-- a division by zero end the run with `none`, or `out_of_bounds` for the disk. The buffer of the console
-- is no array but a pointer to the memory from 0xB8000 on: a write behind the 2000 cells of the screen
-- changes that memory, as a cell of the same function; that it may hold variables of the kernel, from
-- 0x100000 on, is not modelled.
--
-- Bounds and fuel. A loop with a counted number of rounds is a recursion on the rounds. The loops over
-- a `u16` coordinate have 65537 rounds of fuel: one for each value of the counter and one for the
-- last test. The waits on the status of a disk take the fuel as an argument, since only the device
-- ends them; their theorems suppose that one of the next readings is not busy. The loops that end
-- at a zero byte take the fuel as an argument, which has to be above the length of the string. The
-- loops of itoa have 32 rounds: no 32-bit number has more digits, and a reversal takes half as many.
-- The waits of the mouse have the 100000 rounds of their timeout. The loop of getKey counts up from
-- 1000 until its counter overflows: 2^31 - 1000 rounds. The functions of k/memory.c call one another, and
-- take the fuel as an argument: a reservation that finds more than two nodes left ends with three. A
-- list of k/list.h is the sequence of what is in it. The loop of a game takes the number of frames.
--
-- Not modelled: assembly and the order of calls at the start (k/k.c, k/hal.c); the busy waits that
-- only an interrupt ends (sleep, keyboard_getChar, IDE_wait_irq); of k/ide.c the summary of init_IDE,
-- IDE_write_buffer and ATA_get_drive_by_model; print_mouse_info_VGA; of libs/libk/graphic.c the loading
-- of animations, the freeing of images and the screens of blue_screen; the options and messages of the tools;
-- the system calls of libs/libk/syscalls.c and strdup; of roms/ all but the game loop of chichepong. libs/libk/malloc.c, k/list.c and
-- libs/libc/printf.c are copies of other projects' code.
pub mod Base
pub mod Bus
pub mod Console
pub mod Gdt
pub mod Graphic
pub mod Ide
pub mod Idt
pub mod Interrupts
pub mod Keyboard
pub mod Kfs
pub mod Libc
pub mod Memory
pub mod Mouse
pub mod Pic
pub mod Pong
pub mod Serial
pub mod Sound
pub mod Timer
pub mod Vga
