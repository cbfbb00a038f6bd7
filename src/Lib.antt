-- ===== src/Lib.antt =====
-- Verification of ftape, the Linux driver for floppy tape drives.
--
-- The driver reads and writes a tape in segments of 32 sectors of 1 KiB. ftape/lowlevel/ keeps
-- the bad sector map of the tape, protects every segment by a Reed-Solomon code and corrects it
-- after a read; ftape/zftape/ sees the good sectors of all segments as one file and converts
-- between positions in that file and segments.
--
-- Parts and files:
--   Prelude, Prelude/...: names of the libraries, lists and integers over the native numbers,
--     laws of `&`, `|` and `^`.
--   Ecc/...: ftape/lowlevel/ftape-ecc.c, the whole of its active code. Ecc/Tables has the
--     tables, Ecc/Field the arithmetic (mod255 .. gfmul_exp_long), Ecc/Inverse gfinv2, gfinv3
--     and gfmat_mul, Ecc/Memory the byte memory of a segment, Ecc/Parity set_parity and
--     ftape_ecc_set_segment_parity, Ecc/Syndromes compute_syndromes, Ecc/Correct correct_block,
--     Ecc/Segment ftape_ecc_correct_data. Ecc/Field/... are the laws of the field GF(2^8) and
--     of the longs that pack eight bytes; Ecc/Parity/... and Ecc/Segment/Fresh the code words.
--   Bsm/...: ftape/lowlevel/ftape-bsm.c. Bsm/Entry is put_sector, get_sector, cvt2map and
--     cvt2segment, Bsm/Seek forward_seek_entry and backwards_seek_entry, Bsm/Map the lookup with
--     its cached pointer, ftape_put_bad_sector_entry, ftape_extract_bad_sector_map and
--     ftape_init_bsm. A pointer into the list of bad sectors is the list cut in two.
--   Buf/...: ftape/lowlevel/ftape-buffer.c. Buf/Ring is the ring of buffers in memory
--     (add_one_buffer, del_one_buffer, fdc_zap_buffers), Buf/Resize fdc_set_nr_buffers. The
--     memory is a function from addresses to nodes; kmalloc and the controller's alloc are
--     parameters. The wait for memory has a number of rounds, the walk of fdc_zap_buffers one for
--     each buffer.
--   Zft/...: zft_get_seg_sz, zft_get_capacity, zft_calc_seg_byte_coord and zft_calc_tape_pos of
--     ftape/zftape/zftape-rw.c are Zft/Position. The bad sector map is a parameter there, a
--     function from segments to maps, which is what the lookups of Bsm/Map give. Zft/Overshoot is
--     zft_zap_write_buffers and empty_hard_error_list of ftape/zftape/zftape-write.c, Zft/Recover
--     zftape_write_segment and zftape_loop_until_writes_done there, over Rw/Recover and a
--     parameter for what else the driver does; its rounds are enough where there are more of them
--     than hard errors. Zft/Write is _zft_write and fill_deblock_buf, over an interface for these
--     and for the driver, with a round for each segment. Zft/Label is zft_ftape_validate_label of
--     ftape/zftape/zftape-eof.c. Zft/Verify is zft_verify_write_segments of
--     ftape/zftape/zftape-rw.c over a parameter for the low level driver; its loops get a number
--     of rounds, which are enough where the segments of the rounds hold the size.
--   Rw/...: ftape/lowlevel/ftape-rw.c. Rw/Cluster is ftape_calc_next_cluster, Rw/Location the
--     sector id of a segment and the location formula of ftape_read_id, Rw/Ends check_bot_eot and
--     validate, Rw/Setup setup_segment and ftape_setup_new_segment. Rw/Recover is
--     ftape_hard_error_recovery of ftape/lowlevel/ftape-write.c.
--   Fdc/...: ftape/lowlevel/fdc-io.c, as the interrupt handler calls it. Fdc/Wait is fdc_wait
--     and the waits over it, Fdc/Command __fdc_command, fdc_result and
--     fdc_sense_interrupt_status, Fdc/Setup the perpendicular mode, fdc_setup_read_write and
--     fdc_setup_formatting. What the ports give at each access is a parameter: the main status
--     register, the fifo and the residue of the DMA.
--   Isr/...: the computations of ftape/lowlevel/fdc-isr.c on one buffer. Isr/Cause is
--     decode_irq_cause and update_history, Isr/Progress skip_bad_sector, update_error_maps and
--     determine_progress, Isr/Verify get_transfer_size and determine_verify_progress, Isr/Resume
--     find_resume_point.
--   Xfer/...: the handler of ftape/lowlevel/fdc-isr.c around them, on the whole state.
--     Xfer/State is that state: fdc_info_t and ftape_info_t with the ring of buffers, a function
--     from addresses; the functions of Isr, Rw/Cluster and Rw/Setup get the fields of the buffer
--     at the head. Xfer/Continue is schedule_pause_tape, continue_xfer and retry_sector,
--     Xfer/Format determine_fmt_progress and continue_formatting, Xfer/Head and Xfer/Busy
--     handle_fdc_busy, Xfer/Irq fdc_isr with the handlers of seeks, resets and stray interrupts,
--     and pause_tape.
--   Vtbl/...: ftape/zftape/zftape-vtbl.c and ftape/zftape/zftape-inline.h. Vtbl/Table is the
--     table in memory (zft_init_vtbl, zft_new_vtbl_entry and the small tests), Vtbl/Lookup
--     zft_volume_by_segpos, zft_blk_offs, zft_volume_by_blkpos and zft_skip_volumes, Vtbl/Write
--     zft_open_volume, zft_close_volume, zft_weof, zft_move_past_eof and zft_reset_position of
--     ftape/zftape/zftape-ctl.c. Vtbl/Entry is the entry of a volume on tape (create_zft_volume
--     and, in Vtbl/Entry/Extract, what reads it), Vtbl/Headers zft_create_volume_headers and
--     zft_extract_volume_headers, Vtbl/Faked zft_fake_volume_headers. It rests on Zft for
--     positions. The circular list is the list of its nodes; a step off that list is `none`.
--
-- Integers: bytes and longs are natural numbers, with the masks and shifts of the source. A long
-- is 64 bits. Positions on the tape are unbounded where the source has ft_off_t of 64 bits, and
-- so are the counters of errors and retries.
-- Loops run on the number of rounds left, which the source's own bounds give: columns of a
-- sector, blocks of a segment, entries of the list, segments up to last_data_segment, the
-- polls of a wait, the retries of a command, ten interrupts to sense. A read past the end of
-- a list is `none`.
--
-- Not modelled: kernel glue, the programming of ports and DMA, timing and tracing, and the
-- sanity check of ftape-ecc.c that is compiled out. Above the interrupt handler, the commands
-- of QIC-117, the start and the stop of the tape, the deblocking of reads, the
-- reading of file marks and the compressor are not modelled; nor are the drivers of the
-- single controllers.
pub mod Bsm
pub mod Buf
pub mod Ecc
pub mod Fdc
pub mod Isr
pub mod Prelude
pub mod Rw
pub mod Vtbl
pub mod Xfer
pub mod Zft
