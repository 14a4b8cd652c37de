-- ===== src/Fat/Reader.antt =====
-- read_sector_fat of libvdf/fat.c as the reader of an area of the image.
