-- ===== src/ImageSize/Squashfs.antt =====
-- The size of a squashfs image, `read_file_system_size` of src/fssize.c.
