-- ===== src/Lib.antt =====
-- libvdf makes a FAT disk image out of files on the fly: an application creates a drive, adds files
-- and directories to it, and a transport asks for sectors of the image. This library models its
-- parts.
--
-- Prelude, with its children, holds what the other modules share: tests and lemmas on numbers,
-- lists measured by native numbers, machine words, and the results of calls. Drive is the data
-- model of libvdf/vdf_drive.h and libvdf/vdf_file.h: a drive is a record, and the files that its
-- pointers reach are a function from file numbers, so that a write through a pointer is an update
-- of it. Samples holds test data.
--
-- Geometry is createdrive_ext of libvdf/drive.c up to the point where it touches a drive:
-- plan_drive chooses the sector size, the filesystem and the cluster size, and regions_fat12,
-- regions_fat16 and regions_fat32 find the places of the FATs, the root directory and the data.
-- Recalc is vdf_drive_recalc of libvdf/drive.c with dir_recalc, file_recalc_dir and
-- file_recalc_offsize of libvdf/file.c: it gives each file its clusters and sectors and lists them
-- as ranges. Fat is read_sector_fat of libvdf/fat.c, which makes the FAT out of the ranges. Read is
-- libvdf/read.c: vdf_read_sectors splits a read over the areas of the image, where the routines of
-- the areas are a record of functions, and vdf_read_bytes (Read/Bytes) makes bytes out of sectors.
-- Data is libvdf/read_data.c: the sectors of the files, where the host files and the callbacks are
-- a record of functions, and the directories are read by Dir. Dir is libvdf/read_dir.c: the entries
-- of a directory, long names included, with gmtime() as a parameter; Dir/Names describes a long
-- name, its parts and the checksum apart from that code, and Data reads the directories by it. Boot
-- is libvdf/bootblock.c: the boot sector, FSInfo and the MBR, written field by field. Transport is
-- libvdf/transport.c: the transports of a drive, whose drivers are a record of functions. Net is
-- the thread of libvdf/transport/nbd_server.c that answers the requests of a client, on a
-- connection whose two calls are parameters. Sock is these calls, sock_write and sock_read of
-- libvdf/vdf_sock.c, over send() and recv() as parameters; Sock/Stream puts them under the server.
-- DriveState is the rest of libvdf/drive.c: the creation of a drive from a plan, the getters, the
-- label, the serial number and the lock. File is libvdf/file.c: names, creation, deletion, move and
-- search of files, and their sizes, dates and attributes. A new file has a number that the caller
-- gives, as malloc gives a pointer; allocation is taken to succeed.
--
-- Integers are natural numbers with the wrap of their C type written out (u32, sub32); an int that
-- can be negative is given by its 32 bits, and a test of its sign or a conversion to size_t is
-- written out. read_sectors holds for reads of less than 2 ^ 31 bytes, for which the counts of the
-- routines are no negative ints. A buffer is the list of bytes from the pointer on, and an access
-- behind its end is a fault, as is any other undefined behaviour. The loop of read_sector_fat runs
-- on fuel of one more than the number of bytes asked for, and each round writes at least one byte;
-- read_sector_data on one more than the sectors asked for, of which each round takes one at least;
-- sock_write and sock_read on one more than the bytes asked for, of which each round moves one at
-- least; delete_file runs on one more than the number of files, of which it uses one; dir_recalc
-- runs on fuel that bounds the depth of the directories, find_path on fuel for each character of
-- the path, and the search for a short name on the number of numbers to try, 999999 in the code.
--
-- Not modelled: vdf_file_up and vdf_file_down, the rest of the drivers of the transports, the
-- closing of a socket and its mode (threads and input and output), the notice of a read or a write
-- that goes to the application (trans_cback), the dump of a drive, the examples, and the code under
-- ENABLE_CLUSTER_LIST, which nothing defines. The count of locks and the counts of bytes of
-- sock_write and sock_read are ints, and the model does not follow them past 2 ^ 31 - 1. The lock
-- tests are those of a valid drive: vdf_drive_is_locked returns -1 for another, which counts as
-- locked.
pub mod Prelude
pub mod Drive
pub mod Samples
pub mod Geometry
pub mod Recalc
pub mod Fat
pub mod Read
pub mod Data
pub mod Boot
pub mod Dir
pub mod DriveState
pub mod File
pub mod Transport
pub mod Net
pub mod Sock
